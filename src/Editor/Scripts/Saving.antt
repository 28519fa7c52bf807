-- ===== src/Editor/Scripts/Saving.antt =====
-- Saving a script once creates it, and from then on updates it.
use integr8s_code.Base.{
  ◌≡◌, refl, ap, sym, ◌∙◌, false, none, some, List, [], ◌∷◌, Text, is_empty, trim,
}
use integr8s_code.Editor.Scripts.{
  Draft, SavedScript, Body, Offered, Effect, create, update, remove, body_of, send_body, save,
  on_created, on_update_failed,
}

-- The requests that a list of effects sends.
abbrev pub requests : List Effect → List Effect
requests [] = []
requests (create body ∷ es) = create body ∷ requests es
requests (update id body ∷ es) = update id body ∷ requests es
requests (remove id ∷ es) = remove id ∷ requests es
requests (_ ∷ es) = requests es

save_named :
    (offered : Offered) (d : Draft)
    → is_empty (trim d.name) ≡ false
    → save offered d ≡ send_body d.script_id (body_of offered d)
unfolding save
save_named offered d h = rw (save, h) refl

send_new : (body : Body) → send_body none body ≡ create body ∷ []
unfolding send_body
send_new body = refl

send_body_known :
    (id : Text) (body : Body) → is_empty id ≡ false → send_body (some id) body ≡ update id body ∷ []
unfolding send_body
send_body_known [] body h = absurd (cc)
send_body_known (c ∷ id) body h = refl

-- A new script with a name is created; once the API has saved it, saving the same draft again updates
-- the script under the id that the API gave; and when that script was deleted elsewhere (a 404), the
-- same content is created anew.
pub save-on_created :
    (offered : Offered) (d : Draft) (saved : SavedScript)
    → d.script_id ≡ none
    → is_empty (trim d.name) ≡ false
    → is_empty saved.script_id ≡ false
    → let body = body_of offered d in
      (save offered d ≡ create body ∷ [])
      × (save offered (on_created saved d).0 ≡ update saved.script_id body ∷ [])
      × (requests (on_created saved d).1 ≡ [])
      × (on_update_failed 404 body ≡ save offered d)
unfolding on_created on_update_failed
save-on_created offered d saved h n k =
    let created =
      save_named offered d n
      ∙ ap (λ o. send_body o (body_of offered d)) h
      ∙ send_new (body_of offered d) in
    (
      created,
      save_named offered (on_created saved d).0 n
          ∙ send_body_known saved.script_id (body_of offered d) k,
      refl,
      sym created,
    )
