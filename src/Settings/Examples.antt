-- ===== src/Settings/Examples.antt =====
-- The settings page at work, with numbers for its sections.
use integr8s_code.Base.{
  ℕ, ◌≡◌, ◌==◌, refl, not, false, none, some, [], ◌∷◌, codes, arith, text_eq, Bool,
}
use integr8s_code.Settings.{
  Settings, Update, Differs, Page, save, info, is_tainted, update_of, on_update, on_saved, tabs,
  first_tab,
}
use integr8s_code.Settings.Saving.{applied, merged, IsExact, on_saved-applied}

abbrev unequal : ℕ → ℕ → Bool
unequal x y = not (x == y)

unequal-IsExact : IsExact unequal
unequal-IsExact x y = (λ h. ground arith, λ h. ground arith)

abbrev differs : Differs ℕ ℕ ℕ
differs = record { theme = unequal; notifications = unequal; editor = unequal }

abbrev settings : ℕ → ℕ → ℕ → Settings ℕ ℕ ℕ
settings t n e = record { theme = t; notifications = n; editor = e }

-- The user changed the theme and the editor's settings.
abbrev edited : Page ℕ ℕ ℕ
edited = record {
  active_tab = codes "general";
  show_history = false;
  stored = some (settings 0 1 2);
  initial = settings 0 1 2;
  form = settings 5 1 4;
}

abbrev changes : Update ℕ ℕ ℕ
changes = record { theme = some 5; notifications = none; editor = some 4 }

sends-run : on_update differs none edited ≡ (edited, save changes ∷ [])
unfolding on_update is_tainted update_of
sends-run = refl

-- In the meantime another page has stored other notification settings.
on_saved-applied_example :
    let saved = (on_saved (applied changes (settings 0 7 2)) edited).0 in
    (saved.stored ≡ some (merged differs edited (settings 0 7 2)))
    × (saved.form ≡ merged differs edited (settings 0 7 2))
    × (on_update differs none saved ≡ (saved, info (codes "No changes to save") ∷ []))
    × (merged differs edited edited.initial ≡ edited.form)
on_saved-applied_example =
    on_saved-applied differs unequal-IsExact unequal-IsExact unequal-IsExact edited changes
      (settings 0 7 2) sends-run

merged-run : merged differs edited (settings 0 7 2) ≡ settings 5 7 4
merged-run = refl

-- The form shows the tab with the first error.
first_tab-run : first_tab (codes "notifications" ∷ codes "editor" ∷ []) tabs ≡ some (codes "editor")
unfolding first_tab text_eq
first_tab-run = refl
