-- ===== src/Settings/Saving.antt =====
-- What a save of the settings leaves in the form, in terms of what the API stores.
use integr8s_code.Base.{
  ◌≡◌, ◌↔◌, refl, ap, sym, ◌∙◌, inl, inr, Bool, true, false, Bool-cases, false≢true, not, Option,
  none, some, List, [], ◌∷◌, if◌then◌else◌, codes,
}
use integr8s_code.Settings.{
  Settings, Update, Differs, Page, Effect, save, info, is_tainted, update_of, on_update, load,
  on_saved,
}

-- A section of an update that is `null` keeps the one that is stored.
abbrev kept : {A : Type 0} → Option A → A → A
kept none a = a
kept (some b) a = b

-- What the API stores for an update.
abbrev pub applied : {T N E : Type 0} → Update T N E → Settings T N E → Settings T N E
applied u s = record {
  theme = kept u.theme s.theme;
  notifications = kept u.notifications s.notifications;
  editor = kept u.editor s.editor;
}

-- A section as the user left it, or as it is stored if the user did not change it.
abbrev pub chosen : {A : Type 0} → (A → A → Bool) → (initial form stored : A) → A
chosen differs initial form stored = if differs initial form then form else stored

abbrev pub IsExact : {A : Type 0} → (A → A → Bool) → Type 0
IsExact {A} differs = (x y : A) → (differs x y ≡ false) ↔ (x ≡ y)

kept-chosen :
    {A : Type 0} (differs : A → A → Bool) (initial form stored : A)
    → kept (if differs initial form then some form else none) stored
      ≡ chosen differs initial form stored
kept-chosen differs initial form stored = elim (Bool-cases (differs initial form)) [
  | inl e ↦ rw e refl
  | inr e ↦ rw e refl
]

chosen_same :
    {A : Type 0} (differs : A → A → Bool) (initial form : A)
    → IsExact differs
    → chosen differs initial form initial ≡ form
chosen_same differs initial form x = elim (Bool-cases (differs initial form)) [
  | inl e ↦ rw e refl
  | inr e ↦ rw e ((x initial form).0 e)
]

-- The update of the last effect, or `u` if that is no save.
abbrev sent : {T N E : Type 0} → Update T N E → List (Effect T N E) → Update T N E
sent u [] = u
sent u (save v ∷ _) = v
sent u (_ ∷ es) = sent u es

abbrev is_saving : {T N E : Type 0} → List (Effect T N E) → Bool
is_saving (save _ ∷ _) = true
is_saving _ = false

module _ {T N E : Type 0} (differs : Differs T N E) where
  -- What the user changed in the form, over the settings that are stored.
  abbrev pub merged : Page T N E → Settings T N E → Settings T N E
  merged p s = record {
    theme = chosen differs.theme p.initial.theme p.form.theme s.theme;
    notifications =
        chosen differs.notifications p.initial.notifications p.form.notifications s.notifications;
    editor = chosen differs.editor p.initial.editor p.form.editor s.editor;
  }

  -- What `on_update` does, by `is_tainted` and the update.
  answer : Page T N E → Update T N E → Bool → Page T N E × List (Effect T N E)
  answer p u b = if not b then (p, info (codes "No changes to save") ∷ []) else (p, save u ∷ [])

  sent_update :
      (p : Page T N E) (u : Update T N E)
      → on_update differs none p ≡ (p, save u ∷ [])
      → update_of differs p ≡ u
  unfolding on_update answer
  sent_update p u h = elim (Bool-cases (is_tainted differs p)) [
    | inl e ↦ ap (λ r. sent u r.1) (sym (ap (answer p (update_of differs p)) e) ∙ h)
    | inr e ↦
        absurd
          (false≢true (ap (λ r. is_saving r.1) (sym (ap (answer p (update_of differs p)) e) ∙ h)))
  ]

  applied-update_of :
      (p : Page T N E) (s : Settings T N E) → applied (update_of differs p) s ≡ merged p s
  unfolding update_of
  applied-update_of p s = λ i. record {
    theme = kept-chosen differs.theme p.initial.theme p.form.theme s.theme i;
    notifications =
        kept-chosen differs.notifications p.initial.notifications p.form.notifications
          s.notifications i;
    editor = kept-chosen differs.editor p.initial.editor p.form.editor s.editor i;
  }

  module _ (theme : IsExact differs.theme) (notifications : IsExact differs.notifications)
      (editor : IsExact differs.editor) where
    merged-initial : (p : Page T N E) → merged p p.initial ≡ p.form
    merged-initial p = λ i. record {
      theme = chosen_same differs.theme p.initial.theme p.form.theme theme i;
      notifications =
          chosen_same differs.notifications p.initial.notifications p.form.notifications
            notifications i;
      editor = chosen_same differs.editor p.initial.editor p.form.editor editor i;
    }

    unchanged : (s : Settings T N E) (p : Page T N E) → is_tainted differs (load s p) ≡ false
    unfolding is_tainted load
    unchanged s p =
        rw ((theme s.theme s.theme).1 refl, (notifications s.notifications s.notifications).1 refl)
          ((editor s.editor s.editor).1 refl)

    -- A form whose sections the library compares exactly sends an update, and the API applies it to
    -- the settings it has, which may be others than the form began with. Then the query and the form
    -- have what the user changed and the API's other sections, and to save again only says that
    -- there is nothing to save. Over what the form began with, this is the form as the user left it.
    pub on_saved-applied :
        (p : Page T N E) (u : Update T N E) (s : Settings T N E)
        → on_update differs none p ≡ (p, save u ∷ [])
        → let saved = (on_saved (applied u s) p).0 in
          (saved.stored ≡ some (merged p s))
          × (saved.form ≡ merged p s)
          × (on_update differs none saved ≡ (saved, info (codes "No changes to save") ∷ []))
          × (merged p p.initial ≡ p.form)
    unfolding on_saved load on_update
    on_saved-applied p u s h =
        let e : applied u s ≡ merged p s =
          ap (λ v. applied v s) (sym (sent_update p u h)) ∙ applied-update_of p s in
        (ap some e, e, rw (unchanged (applied u s) p) refl, merged-initial p)
