-- ===== src/Editor/Runtime/Examples.antt =====
-- Runs of `pick_runtime`.
use integr8s_code.Base.{[], ◌∷◌, ◌≡◌, refl, text_eq, Text, codes}
use integr8s_code.Editor.Runtime.{Runtime, LanguageInfo, pick_runtime}

abbrev python : Text × LanguageInfo
python =
    (codes "python", record { versions = codes "3.12" ∷ codes "3.11" ∷ []; file_ext = codes "py" })

abbrev runtime : Runtime
runtime = record { lang = codes "python"; lang_version = codes "2.7" }

-- A version that is not offered gives way to the newest.
pick_runtime-run :
    pick_runtime runtime (python ∷ [])
    ≡ record { lang = codes "python"; lang_version = codes "3.12" }
unfolding pick_runtime text_eq
pick_runtime-run = refl
