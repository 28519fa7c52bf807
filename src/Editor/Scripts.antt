-- ===== src/Editor/Scripts.antt =====
-- The script open in the editor and what the file buttons do with it:
-- frontend/src/lib/editor/draft.svelte.ts, the script of
-- frontend/src/components/editor/ScriptActions.svelte and `run` of
-- frontend/src/routes/(auth)/editor/+page.svelte. Letters of a file's ending are lowered in ASCII.
pub mod Files
pub mod Saving
pub mod Workspace
mod Examples
use integr8s_code.Base.{
  ℕ, Bool, true, false, ◌&&◌, not, any, Option, none, some, List, [], ◌∷◌, ◌++◌, map, if◌then◌else◌,
  ◌==◌, Text, codes, text_eq, is_empty, trim, lookup, join,
}
use integr8s_code.Formatters.{to_lower}
use integr8s_code.Validation.{Report, first_issue}
use integr8s_code.Editor.Runtime.{Runtime, LanguageInfo, newest, pick_runtime}

pub record Draft : Type 0 where
  pub script_id : Option Text
  pub name : Text
  pub script : Text
  pub lang : Text
  pub lang_version : Text

-- The fields of a saved script that the editor takes.
pub record SavedScript : Type 0 where
  pub script_id : Text
  pub name : Text
  pub script : Text
  pub lang : Text
  pub lang_version : Text

unfoldable pub open_script : SavedScript → Draft → Draft
open_script s d = record {
  script_id = some s.script_id;
  name = s.name;
  script = s.script;
  lang = s.lang;
  lang_version = s.lang_version;
}

unfoldable pub new_script : Draft → Draft
new_script d = record d { script_id = none; name = []; script = [] }

-- What is sent to create a script or to update one.
pub record Body : Type 0 where
  pub name : Text
  pub script : Text
  pub lang : Text
  pub lang_version : Text

pub data Toast : Type 0 where
  success info warning error : Text → Toast

pub data Effect : Type 0 where
  toast : Toast → Effect
  create : Body → Effect
  update : (script_id : Text) → Body → Effect
  remove : (script_id : Text) → Effect
  refresh_scripts refetch_scripts reset_execution : Effect
  execute : (script lang lang_version : Text) → Effect
  offer_file : (name content : Text) → Effect

abbrev pub Offered : Type 0
Offered = List (Text × LanguageInfo)

-- `pickRuntime(draft.current, runtimes)`
abbrev pub runtime_of : Offered → Draft → Runtime
runtime_of offered d =
    pick_runtime (record { lang = d.lang; lang_version = d.lang_version }) offered

unfoldable pub start_new : Draft → Draft × List Effect
unfolding new_script
start_new d = (new_script d, reset_execution ∷ toast (info (codes "New script started.")) ∷ [])

-- `{ ...script, ...runtime }`
abbrev pub body_of : Offered → Draft → Body
body_of offered d =
    let r = runtime_of offered d in
    record { name = d.name; script = d.script; lang = r.lang; lang_version = r.lang_version }

-- A draft whose id is missing or empty is a new script.
unfoldable pub send_body : Option Text → Body → List Effect
send_body none body = create body ∷ []
send_body (some []) body = create body ∷ []
send_body (some (c ∷ id)) body = update (c ∷ id) body ∷ []

unfoldable pub save : Offered → Draft → List Effect
unfolding send_body trim pick_runtime
save offered d =
    if is_empty (trim d.name)
    then toast (warning (codes "Please provide a name for your script.")) ∷ []
    else send_body d.script_id (body_of offered d)

unfoldable pub on_created : SavedScript → Draft → Draft × List Effect
on_created saved d = (
  record d { script_id = some saved.script_id },
  toast (success (codes "Script saved successfully.")) ∷ refresh_scripts ∷ [],
)

abbrev pub on_updated : List Effect
on_updated = toast (success (codes "Script updated successfully.")) ∷ refresh_scripts ∷ []

-- The update's own `onError`, for the body that was sent.
unfoldable pub on_update_failed : (status : ℕ) → Body → List Effect
on_update_failed status body = if status == 404 then create body ∷ [] else []

-- A file that was picked; `none` is a file that cannot be read.
pub record File : Type 0 where
  pub name : Text
  pub text : Option Text

-- The script's schema: the script as it leaves it, or the issues.
pub data Parsed : Type 0 where
  parsed : Text → Parsed
  rejected : List Report → Parsed

-- `name.split('.').pop()`: what is behind the last dot, or all of a name without one.
pub last_part : (part : Text) → Text → Text
last_part part [] = part
last_part part (c ∷ s) = if c == b'.' then last_part s s else last_part part s

unfoldable pub extension : Text → Text
unfolding last_part to_lower
extension name = map to_lower (last_part name name)

-- The first language with this file extension.
unfoldable pub language_for : Text → Offered → Option Text
unfolding text_eq
language_for ext [] = none
language_for ext ((lang, i) ∷ offered) =
    if text_eq i.file_ext ext then some lang else language_for ext offered

abbrev pub extensions : Offered → List Text
extensions offered = map (λ e. b'.' ∷ e.1.file_ext) offered

-- `runtimes[lang]?.versions[0] ?? ''`
abbrev pub newest_of : Offered → Text → Text
unfolding lookup
newest_of offered lang = elim (lookup lang offered) [ some i ↦ newest i.versions | none ↦ [] ]

unfoldable pub uploaded : Offered → (name lang : Text) → Parsed → Draft → Draft × List Effect
unfolding first_issue lookup
uploaded offered name lang (rejected issues) d = (d, toast (error (first_issue issues)) ∷ [])
uploaded offered name lang (parsed script) d = (
  record {
    script_id = none;
    name = name;
    script = script;
    lang = lang;
    lang_version = newest_of offered lang;
  },
  reset_execution
      ∷ toast (info (codes "Loaded " ++ (lang ++ (codes " script from " ++ name))))
      ∷ [],
)

unfoldable pub read_file :
    (Text → Parsed) → Offered → (name lang : Text) → Option Text → Draft → Draft × List Effect
unfolding uploaded
read_file parse offered name lang none d =
    (d, toast (error (codes "Failed to read the selected file.")) ∷ [])
read_file parse offered name lang (some text) d = uploaded offered name lang (parse text) d

abbrev unsupported : Offered → List Effect
unsupported offered =
    toast
      (error (codes "Unsupported file type. Allowed: " ++ join (codes ", ") (extensions offered)))
    ∷ []

-- `if (!lang)` also stops at a language with an empty name.
unfoldable pub upload :
    (parse : Text → Parsed) → Offered → Option File → Draft → Draft × List Effect
unfolding read_file extension language_for
upload parse offered none d = (d, [])
upload parse offered (some file) d = elim (language_for (extension file.name) offered) [
  | none ↦ (d, unsupported offered)
  | some lang ↦
      if is_empty lang
      then (d, unsupported offered)
      else read_file parse offered file.name lang file.text d
]

-- `name.replace(/\.[^.]+$/, '')`: without the last dot and what is behind it, if that is something.
without_extension : Text → Text
without_extension [] = []
without_extension (c ∷ s) =
    let rest = without_extension s in
    if c == b'.' && (not (is_empty s) && not (any (λ d. d == b'.') s)) then [] else c ∷ rest

or_script : Text → Text
or_script [] = codes "script"
or_script (c ∷ s) = c ∷ s

unfoldable pub file_ext_of : Offered → Text → Text
unfolding lookup
file_ext_of offered lang = elim (lookup lang offered) [ some i ↦ i.file_ext | none ↦ codes "txt" ]

unfoldable pub download_name : Offered → Draft → Text
unfolding without_extension or_script trim pick_runtime file_ext_of
download_name offered d =
    or_script (without_extension (trim d.name))
    ++ b'.' ∷ file_ext_of offered (runtime_of offered d).lang

unfoldable pub download : Offered → Draft → List Effect
unfolding download_name
download offered d = offer_file (download_name offered d) d.script ∷ []

-- `run` of the editor's page.
switched : Runtime → Draft → Bool
unfolding text_eq
switched r d = text_eq r.lang d.lang && not (text_eq r.lang_version d.lang_version)

unfoldable pub run : Offered → Draft → Draft × List Effect
unfolding switched pick_runtime
run offered d =
    let r = runtime_of offered d in
    let start = execute d.script r.lang r.lang_version ∷ [] in
    (
      record d { lang = r.lang; lang_version = r.lang_version },
      if switched r d
          then toast (
              info (
                codes "Version "
                ++ (d.lang_version
                    ++ (codes " of "
                        ++ (r.lang
                            ++ (codes " is no longer available, switched to "
                                ++ (r.lang_version ++ codes ".")))))))
            ∷ start
          else start,
    )
