-- ===== src/Editor/Scripts/Workspace.antt =====
-- The open script between everything that changes it: the scripts of
-- frontend/src/components/editor/SavedScripts.svelte, LoadExample.svelte and LanguageSelect.svelte,
-- with the file buttons' and the fields of the editor's page.
pub mod Deleted
mod Examples
use integr8s_code.Base.{
  Bool, true, false, not, Option, none, some, List, [], ◌∷◌, ◌++◌, if◌then◌else◌, Text, codes,
  text_eq, is_empty, lookup,
}
use integr8s_code.Editor.Scripts.{
  Draft, SavedScript, Toast, success, info, warning, Effect, toast, remove, refresh_scripts,
  refetch_scripts, reset_execution, open_script, new_script, start_new, on_created, Offered, Parsed,
  File, upload, run,
}

-- `draft.current.script_id === script_id`
unfoldable pub is_open : (script_id : Text) → Draft → Bool
unfolding text_eq
is_open script_id d = elim d.script_id [ some open_id ↦ text_eq open_id script_id | none ↦ false ]

-- `onSuccess` of a deletion.
unfoldable pub on_removed : (script_id : Text) → Draft → Draft × List Effect
unfolding is_open new_script
on_removed script_id d = (
  if is_open script_id d then new_script d else d,
  toast (success (codes "Script deleted successfully.")) ∷ refresh_scripts ∷ [],
)

unfoldable pub toggle : (show : Bool) → Bool × List Effect
toggle show = (not show, if not show then refetch_scripts ∷ [] else [])

unfoldable pub open_saved : SavedScript → Draft → Draft × List Effect
unfolding open_script
open_saved saved d = (
  open_script saved d,
  reset_execution ∷ toast (info (codes "Loaded script: " ++ saved.name)) ∷ [],
)

unfoldable pub confirm_delete : SavedScript → (confirmed : Bool) → List Effect
confirm_delete saved confirmed = if not confirmed then [] else remove saved.script_id ∷ []

-- The examples by language; `none` if they have not come.
abbrev pub Examples : Type 0
Examples = Option (List (Text × Text))

abbrev pub example_for : (lang : Text) → Examples → Option Text
unfolding lookup
example_for lang none = none
example_for lang (some scripts) = lookup lang scripts

no_example : (lang : Text) → List Effect
no_example lang =
    toast (warning (codes "No example script available for " ++ (lang ++ codes "."))) ∷ []

-- `load` of the button for examples; an empty example is none.
unfoldable pub with_example : Option Text → Draft → Draft × List Effect
unfolding no_example
with_example none d = (d, no_example d.lang)
with_example (some []) d = (d, no_example d.lang)
with_example (some (c ∷ s)) d = (
  record d { script = c ∷ s },
  reset_execution ∷ toast (info (codes "Loaded example script for " ++ (d.lang ++ codes "."))) ∷ [],
)

unfoldable pub load_example : Examples → Draft → Draft × List Effect
unfolding with_example lookup
load_example examples d = with_example (example_for d.lang examples) d

-- `select` of the menu of languages.
unfoldable pub select_language : (lang version : Text) → Draft → Draft
select_language lang version d = record d { lang = lang; lang_version = version }

-- What happens to the open script; `created` and `removed` are the API's answers.
pub data Event : Type 0 where
  renamed edited : Text → Event
  language_selected : (lang version : Text) → Event
  example_loaded : Examples → Event
  opened : SavedScript → Event
  new_clicked run_clicked : Event
  uploaded : (Text → Parsed) → Option File → Event
  created : SavedScript → Event
  removed : (script_id : Text) → Event

unfoldable pub step : Offered → Event → Draft → Draft × List Effect
unfolding select_language load_example open_saved start_new run upload on_created on_removed
step offered (renamed name) d = (record d { name = name }, [])
step offered (edited script) d = (record d { script = script }, [])
step offered (language_selected lang version) d = (select_language lang version d, [])
step offered (example_loaded examples) d = load_example examples d
step offered (opened saved) d = open_saved saved d
step offered new_clicked d = start_new d
step offered run_clicked d = run offered d
step offered (uploaded parse file) d = upload parse offered file d
step offered (created saved) d = on_created saved d
step offered (removed script_id) d = on_removed script_id d

unfoldable pub steps : Offered → List Event → Draft → Draft
unfolding step
steps offered [] d = d
steps offered (e ∷ es) d = steps offered es (step offered e d).0
