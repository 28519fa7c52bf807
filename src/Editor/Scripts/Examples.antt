-- ===== src/Editor/Scripts/Examples.antt =====
-- Runs of the editor's file buttons.
use integr8s_code.Base.{◌≡◌, refl, none, [], ◌∷◌, codes, trim, text_eq}
use integr8s_code.Editor.Runtime.{LanguageInfo}
use integr8s_code.Editor.Scripts.{
  Draft, SavedScript, Offered, create, update, body_of, save, on_created, on_update_failed,
  download_name,
}
use integr8s_code.Editor.Scripts.Saving.{requests, save-on_created}

abbrev python : LanguageInfo
python = record { versions = codes "3.12" ∷ []; file_ext = codes "py" }

abbrev go : LanguageInfo
go = record { versions = codes "1.22" ∷ []; file_ext = codes "go" }

abbrev offered : Offered
offered = (codes "go", go) ∷ (codes "python", python) ∷ []

abbrev draft : Draft
draft = record {
  script_id = none;
  name = codes "hello.v1";
  script = codes "print(1)";
  lang = codes "python";
  lang_version = codes "3.12";
}

download_name-run : download_name offered draft ≡ codes "hello.py"
unfolding download_name text_eq
download_name-run = refl

abbrev saved : SavedScript
saved = record {
  script_id = codes "7";
  name = codes "hello.v1";
  script = codes "print(1)";
  lang = codes "python";
  lang_version = codes "3.12";
}

save-on_created_example :
    (save offered draft ≡ create (body_of offered draft) ∷ [])
    × (save offered (on_created saved draft).0 ≡ update (codes "7") (body_of offered draft) ∷ [])
    × (requests (on_created saved draft).1 ≡ [])
    × (on_update_failed 404 (body_of offered draft) ≡ save offered draft)
unfolding trim
save-on_created_example = save-on_created offered draft saved refl refl refl
