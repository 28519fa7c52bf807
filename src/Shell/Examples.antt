-- ===== src/Shell/Examples.antt =====
-- The theme and the menu at work.
use integr8s_code.Base.{ℕ, ◌≤◌, ◌≡◌, refl, true, false, some, [], ◌∷◌}
use integr8s_code.Shell.{
  Theme, light, dark, system, Shell, theme_eq, next_theme, toggle_theme, theme_saved,
  store_settings, is_news, toggle_menu, close_menu, is_menu_active, logout_settled, clear_cache,
  go_to_login,
}
use integr8s_code.Shell.Themes.{
  toggles, toggle_theme-reaches, Reaches, start, toggled, answered, mode-toggle_theme,
}

-- Settings that are no more than their theme.
abbrev theme_of : Theme → Theme
theme_of t = t

theme_eq→eq : (t u : Theme) → theme_eq t u ≡ true → theme_of t ≡ theme_of u
unfolding theme_eq
theme_eq→eq light light h = refl
theme_eq→eq dark dark h = refl
theme_eq→eq system system h = refl
theme_eq→eq light dark h = absurd (cc)
theme_eq→eq light system h = absurd (cc)
theme_eq→eq dark light h = absurd (cc)
theme_eq→eq dark system h = absurd (cc)
theme_eq→eq system light h = absurd (cc)
theme_eq→eq system dark h = absurd (cc)

abbrev opened : Shell Theme
opened = record {
  menu_requested = false;
  signed_in = true;
  mode = light;
  settings = some light;
  saving = [];
}

-- Two toggles, whose first answer puts the mode back to dark before the second is there.
abbrev twice : Shell Theme
twice = (toggle_theme (toggle_theme opened).0).0

abbrev first_answered : Shell Theme
first_answered = theme_saved theme_of theme_eq dark twice

abbrev all_answered : Shell Theme
all_answered = theme_saved theme_of theme_eq system first_answered

put_back-run : first_answered.mode ≡ dark
unfolding toggle_theme theme_saved store_settings is_news theme_eq next_theme
put_back-run = refl

answered_run : Reaches theme_of theme_eq opened system all_answered
unfolding toggle_theme theme_saved store_settings is_news theme_eq next_theme
answered_run =
    answered system []
      (answered dark (system ∷ []) (toggled (toggled (start refl refl) refl) refl) refl) refl

answered_saving : all_answered.saving ≡ []
unfolding toggle_theme theme_saved store_settings is_news theme_eq next_theme
answered_saving = refl

mode-toggle_theme_example : all_answered.mode ≡ system
mode-toggle_theme_example =
    mode-toggle_theme theme_of theme_eq opened all_answered system theme_eq→eq answered_run
      answered_saving

reaches_run :
    ((n : ℕ) × (n ≤ 2) × ((toggles n opened).mode ≡ system)) × ((toggles 3 opened).mode ≡ light)
reaches_run = toggle_theme-reaches opened system

-- The menu that a wide window hides opens at the first toggle when the window gets narrow.
menu-run :
    (is_menu_active false (toggle_menu true (toggle_menu false opened)) ≡ true)
    × (is_menu_active false (close_menu (toggle_menu false opened)) ≡ false)
    × ((logout_settled opened).1 ≡ clear_cache ∷ go_to_login ∷ [])
unfolding is_menu_active toggle_menu close_menu logout_settled
menu-run = (refl, refl, refl)
