-- ===== src/Editor/Scripts/Workspace/Deleted.antt =====
-- A script that was deleted is not saved to any more.
use integr8s_code.Base.{
  ◌≡◌, refl, inl, inr, ap, sym, ◌∙◌, Bool, true, false, Bool-cases, not, ◌&&◌, both, any, Option,
  none, some, List, [], ◌∷◌, Text, text_eq, Option-cases, arith, is_empty, trim,
}
use integr8s_code.Editor.Scripts.{
  Body, Draft, Offered, Effect, update, save, send_body, body_of, Parsed, parsed, rejected, File,
  uploaded, language_for, extension, upload, read_file, on_created, start_new, new_script,
  open_script, run,
}
use integr8s_code.Editor.Scripts.Workspace.{
  Event, renamed, edited, language_selected, example_loaded, new_clicked, run_clicked, example_for,
  opened, created, removed, step, steps, is_open, on_removed, load_example, with_example,
  select_language, open_saved,
}

-- The scripts that the events delete, the last first.
abbrev pub deleted : List Event → List Text → List Text
deleted [] ids = ids
deleted (removed id ∷ es) ids = deleted es (id ∷ ids)
deleted (_ ∷ es) ids = deleted es ids

abbrev pub is_gone : Text → List Text → Bool
is_gone id ids = any (text_eq id) ids

-- No script is opened from the list or created that was deleted before.
abbrev pub is_fresh : List Event → List Text → Bool
is_fresh [] ids = true
is_fresh (opened saved ∷ es) ids = not (is_gone saved.script_id ids) && is_fresh es ids
is_fresh (created saved ∷ es) ids = not (is_gone saved.script_id ids) && is_fresh es ids
is_fresh (removed id ∷ es) ids = is_fresh es (id ∷ ids)
is_fresh (_ ∷ es) ids = is_fresh es ids

abbrev pub updates : List Text → Effect → Bool
updates ids (update id body) = is_gone id ids
updates ids _ = false

abbrev IsKept : List Text → Option Text → Type 0
IsKept ids o = (id : Text) → o ≡ some id → is_gone id ids ≡ false

keep_none : (ids : List Text) → IsKept ids none
keep_none ids id e = absurd (cc)

keep_some : (ids : List Text) (i : Text) → not (is_gone i ids) ≡ true → IsKept ids (some i)
keep_some ids i h id e =
    let same : i ≡ id = cc in
    let open_now : is_gone i ids ≡ false = ground arith in
    ap (λ j. is_gone j ids) (sym same) ∙ open_now

-- An upload keeps the open script's id or drops it.
uploaded-IsKept :
    (offered : Offered) (name lang : Text) (p : Parsed) (d : Draft) (ids : List Text)
    → IsKept ids d.script_id
    → IsKept ids (uploaded offered name lang p d).0.script_id
unfolding uploaded
uploaded-IsKept offered name lang (rejected issues) d ids k = k
uploaded-IsKept offered name lang (parsed script) d ids k = keep_none ids

read_file-IsKept :
    (parse : Text → Parsed) (offered : Offered) (name lang : Text) (text : Option Text) (d : Draft)
    (ids : List Text)
    → IsKept ids d.script_id
    → IsKept ids (read_file parse offered name lang text d).0.script_id
unfolding read_file
read_file-IsKept parse offered name lang none d ids k = k
read_file-IsKept parse offered name lang (some text) d ids k =
    uploaded-IsKept offered name lang (parse text) d ids k

upload-IsKept :
    (parse : Text → Parsed) (offered : Offered) (file : Option File) (d : Draft) (ids : List Text)
    → IsKept ids d.script_id
    → IsKept ids (upload parse offered file d).0.script_id
unfolding upload
upload-IsKept parse offered none d ids k = k
upload-IsKept parse offered (some file) d ids k =
    elim (Option-cases (language_for (extension file.name) offered)) [
      | inl e ↦ rw (upload, e) k
      | inr (lang, e) ↦ elim (Bool-cases (is_empty lang)) [
        | inl empty ↦ rw (upload, e, empty) k
        | inr named ↦
            rw (upload, e, named) (read_file-IsKept parse offered file.name lang file.text d ids k)
      ]
    ]

with_example-IsKept :
    (o : Option Text) (d : Draft) (ids : List Text)
    → IsKept ids d.script_id
    → IsKept ids (with_example o d).0.script_id
unfolding with_example
with_example-IsKept none d ids k = k
with_example-IsKept (some []) d ids k = k
with_example-IsKept (some (c ∷ s)) d ids k = k

is_open-some :
    (id other : Text) (d : Draft) → d.script_id ≡ some other → is_open id d ≡ text_eq other id
unfolding is_open
is_open-some id other d e = rw e refl

on_removed-IsKept :
    (id : Text) (d : Draft) (ids : List Text)
    → IsKept ids d.script_id
    → IsKept (id ∷ ids) (on_removed id d).0.script_id
unfolding on_removed new_script
on_removed-IsKept id d ids k = elim (Bool-cases (is_open id d)) [
  | inl e ↦ rw e (keep_none (id ∷ ids))
  | inr e ↦
      rw e (λ other q. let apart = sym (is_open-some id other d q) ∙ e in rw apart (k other q))
]

send_body-updates :
    (ids : List Text) (o : Option Text) (body : Body)
    → IsKept ids o
    → any (updates ids) (send_body o body) ≡ false
unfolding send_body
send_body-updates ids none body k = refl
send_body-updates ids (some []) body k = refl
send_body-updates ids (some (c ∷ id)) body k = rw (k (c ∷ id) refl) refl

save-updates :
    (offered : Offered) (ids : List Text) (d : Draft)
    → IsKept ids d.script_id
    → any (updates ids) (save offered d) ≡ false
unfolding save
save-updates offered ids d k = elim (Bool-cases (is_empty (trim d.name))) [
  | inl e ↦ rw (save, e) refl
  | inr e ↦ rw (save, e) (send_body-updates ids d.script_id (body_of offered d) k)
]

module _ (offered : Offered) where
  steps-IsKept :
      (es : List Event) (d : Draft) (ids : List Text)
      → IsKept ids d.script_id
      → is_fresh es ids ≡ true
      → IsKept (deleted es ids) (steps offered es d).script_id
  unfolding steps step select_language load_example open_saved open_script start_new new_script run
      on_created
  steps-IsKept [] d ids k f = k
  steps-IsKept (renamed name ∷ es) d ids k f = steps-IsKept es _ ids k f
  steps-IsKept (edited script ∷ es) d ids k f = steps-IsKept es _ ids k f
  steps-IsKept (language_selected lang version ∷ es) d ids k f = steps-IsKept es _ ids k f
  steps-IsKept (example_loaded examples ∷ es) d ids k f =
      steps-IsKept es _ ids (with_example-IsKept (example_for d.lang examples) d ids k) f
  steps-IsKept (opened saved ∷ es) d ids k f =
      let g = both (not (is_gone saved.script_id ids)) (is_fresh es ids) f in
      steps-IsKept es _ ids (keep_some ids saved.script_id g.0) g.1
  steps-IsKept (new_clicked ∷ es) d ids k f = steps-IsKept es _ ids (keep_none ids) f
  steps-IsKept (run_clicked ∷ es) d ids k f = steps-IsKept es _ ids k f
  steps-IsKept (Event.uploaded parse file ∷ es) d ids k f =
      steps-IsKept es _ ids (upload-IsKept parse offered file d ids k) f
  steps-IsKept (created saved ∷ es) d ids k f =
      let g = both (not (is_gone saved.script_id ids)) (is_fresh es ids) f in
      steps-IsKept es _ ids (keep_some ids saved.script_id g.0) g.1
  steps-IsKept (removed id ∷ es) d ids k f =
      steps-IsKept es _ (id ∷ ids) (on_removed-IsKept id d ids k) f

  -- Whatever is opened, uploaded, created, edited and deleted, in any order, over any draft: to save
  -- the open script never updates a script that was deleted on the way, if no script is opened or
  -- created under the id of one that was deleted before.
  pub save-deleted :
      (es : List Event) (d : Draft)
      → is_fresh es [] ≡ true
      → any (updates (deleted es [])) (save offered (steps offered es d)) ≡ false
  save-deleted es d f =
      save-updates offered (deleted es []) (steps offered es d)
        (steps-IsKept es d [] (λ id e. refl) f)
