-- ===== src/Notifications/Page/Deleting.antt =====
-- A notification is deleted once.
use integr8s_code.Base.{both}
use integr8s_code.Base.{
  ℕ, ◌+◌, ◌≡◌, refl, ap, ap₂, ◌∙◌, Bool, true, false, not, ◌==◌, some, List, [], ◌∷◌, ◌++◌, Text,
  text_eq, text_eq→eq, text_eq_refl, all, arith,
}
use integr8s_code.Base.{filter}
use integr8s_code.Base.{filter-append}
use integr8s_code.Notifications.Page.{
  Page, Effect, Event, delete, delete_clicked, delete_settled, mark_clicked, is_deleting,
  delete_notification, mark_as_read, step, steps, after_settled, apply_filters,
}

abbrev pub is_delete : Effect → Bool
is_delete (delete _) = true
is_delete _ = false

-- Neither the end of this call nor the deletion of another notification.
abbrev pub is_calm : (call : ℕ) → (id : Text) → Event → Bool
is_calm call id (delete_settled other) = not (call == other)
is_calm call id (delete_clicked other) = text_eq other id
is_calm call id _ = true

-- The deletions that the events send.
abbrev pub deletions : List Event → Page → List Effect
deletions es p = filter is_delete (steps es p).1

abbrev IsPending : (call : ℕ) → (id : Text) → Page → Type 0
IsPending call id p = p.deleting ≡ some (call, id)

pending_deleting : (call : ℕ) (id : Text) (p : Page) → IsPending call id p → is_deleting id p ≡ true
unfolding is_deleting
pending_deleting call id p h = rw (is_deleting, h) (text_eq_refl id)

ignored :
    (call : ℕ) (id other : Text) (p : Page)
    → IsPending call id p
    → text_eq other id ≡ true
    → delete_notification other p ≡ (p, [])
unfolding delete_notification
ignored call id other p h e =
    rw (text_eq→eq other id e, delete_notification, pending_deleting call id p h) refl

still_pending :
    (call other : ℕ) (id : Text) (p : Page)
    → IsPending call id p
    → not (call == other) ≡ true
    → after_settled other p.deleting ≡ some (call, id)
still_pending call other id p h e = rw h (ground arith)

calm_step :
    (call : ℕ) (id : Text) (e : Event) (p : Page)
    → IsPending call id p
    → is_calm call id e ≡ true
    → IsPending call id (step e p).0 × (filter is_delete (step e p).1 ≡ [])
unfolding step filter mark_as_read apply_filters
calm_step call id (delete_clicked other) p h c =
    let same = ignored call id other p h c in
    (ap (λ s. s.0.deleting) same ∙ h, ap (λ s. filter is_delete s.1) same)
calm_step call id (delete_settled other) p h c = (still_pending call other id p h c, refl)
calm_step call id (mark_clicked other status) p h c = (h, ground arith)
calm_step call id _ p h c = (h, refl)

calm_steps :
    (call : ℕ) (id : Text) (es : List Event) (p : Page)
    → IsPending call id p
    → all (is_calm call id) es ≡ true
    → deletions es p ≡ []
unfolding steps filter
calm_steps call id [] p h c = refl
calm_steps call id (e ∷ es) p h c =
    let now = calm_step call id e p h (both (is_calm call id e) (all (is_calm call id) es) c).0 in
    filter-append is_delete (step e p).1 (steps es (step e p).0).1
    ∙ ap₂ (λ xs ys. xs ++ ys) now.1
        (calm_steps call id es (step e p).0 now.0
          (both (is_calm call id e) (all (is_calm call id) es) c).1)

-- A click that deletes a notification sends one request; until that call has ended, and unless the
-- user deletes another notification in between, further clicks on it send none, whatever else happens.
pub deletions-delete_clicked :
    (id : Text) (es : List Event) (p : Page)
    → is_deleting id p ≡ false
    → all (is_calm p.deletions id) es ≡ true
    → deletions (delete_clicked id ∷ es) p ≡ delete id ∷ []
unfolding steps step delete_notification filter
deletions-delete_clicked id es p h c =
    let q = record p { deletions = p.deletions + 1; deleting = some (p.deletions, id) } in
    rw (steps, step, delete_notification, h)
      (ap (λ xs. delete id ∷ xs) (calm_steps p.deletions id es q refl c))
