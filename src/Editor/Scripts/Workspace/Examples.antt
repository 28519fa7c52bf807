-- ===== src/Editor/Scripts/Workspace/Examples.antt =====
-- Scripts that are opened, deleted and saved.
use integr8s_code.Base.{
  ◌≡◌, refl, true, false, any, none, some, List, [], ◌∷◌, codes, trim, text_eq, lookup,
}
use integr8s_code.Editor.Runtime.{pick_runtime}
use integr8s_code.Editor.Scripts.{
  Draft, SavedScript, Offered, save, update, new_script, on_created, open_script, send_body,
}
use integr8s_code.Editor.Scripts.Workspace.{
  Event, opened, renamed, created, removed, example_loaded, step, steps, load_example, with_example,
  open_saved, on_removed, is_open,
}
use integr8s_code.Editor.Scripts.Workspace.Deleted.{deleted, is_fresh, updates, save-deleted}

abbrev offered : Offered
offered = (codes "python", record { versions = codes "3.12" ∷ []; file_ext = codes "py" }) ∷ []

abbrev draft : Draft
draft = record {
  script_id = none;
  name = [];
  script = [];
  lang = codes "python";
  lang_version = codes "3.12";
}

abbrev hello : SavedScript
hello = record {
  script_id = codes "7";
  name = codes "hello";
  script = codes "print(1)";
  lang = codes "python";
  lang_version = codes "3.12";
}

abbrev other : SavedScript
other = record hello { script_id = codes "8"; name = codes "other"; script = codes "print(2)" }

-- The open script is deleted, and another one is written and named.
abbrev events : List Event
events =
    opened hello
    ∷ removed (codes "7")
    ∷ example_loaded (some ((codes "python", codes "print(3)") ∷ []))
    ∷ renamed (codes "three")
    ∷ []

events-is_fresh : is_fresh events [] ≡ true
unfolding text_eq
events-is_fresh = refl

save-deleted_example :
    any (updates (deleted events [])) (save offered (steps offered events draft)) ≡ false
save-deleted_example = save-deleted offered events draft events-is_fresh

steps-run :
    steps offered events draft ≡ record draft { name = codes "three"; script = codes "print(3)" }
unfolding steps step open_saved open_script on_removed is_open new_script load_example with_example
    text_eq lookup
steps-run = refl

-- Where another script is opened before the answer that a new script has been created, the open
-- script gets the new one's id, and saving it overwrites the new one.
mixed_up-run :
    save offered (steps offered (opened other ∷ created hello ∷ []) draft)
    ≡ update (codes "7") (record {
      name = codes "other";
      script = codes "print(2)";
      lang = codes "python";
      lang_version = codes "3.12";
    })
      ∷ []
unfolding steps step open_saved open_script on_created save send_body trim pick_runtime text_eq
mixed_up-run = refl
