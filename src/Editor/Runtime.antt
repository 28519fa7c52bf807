-- ===== src/Editor/Runtime.antt =====
-- The language and version that the editor runs a draft with: frontend/src/lib/editor/runtime.ts. The
-- languages offered are in the order of the API's object, whose keys are no array indices.
pub mod Offered
mod Examples
use integr8s_code.Base.{
  Bool, Option, none, some, List, [], ◌∷◌, if◌then◌else◌, Text, text_eq, any, lookup,
}

pub record Runtime : Type 0 where
  pub lang : Text
  pub lang_version : Text

pub record LanguageInfo : Type 0 where
  pub versions : List Text
  pub file_ext : Text

-- `versions[0] ?? ''`
abbrev pub newest : List Text → Text
newest [] = []
newest (v ∷ versions) = v

-- `versions.includes(version)`
abbrev pub includes_version : Text → List Text → Bool
includes_version version versions = any (text_eq version) versions

first_language : Runtime → List (Text × LanguageInfo) → Runtime
first_language r [] = r
first_language r ((lang, info) ∷ _) = record { lang = lang; lang_version = newest info.versions }

choose : Runtime → List (Text × LanguageInfo) → Option LanguageInfo → Runtime
unfolding first_language text_eq
choose r offered none = first_language r offered
choose r offered (some info) = record r {
  lang_version =
      if includes_version r.lang_version info.versions
      then r.lang_version
      else newest info.versions;
}

unfoldable pub pick_runtime : Runtime → List (Text × LanguageInfo) → Runtime
unfolding choose lookup
pick_runtime r offered = choose r offered (lookup r.lang offered)
