-- ===== src/Shell.antt =====
-- What stands around every page: the script of frontend/src/components/Header.svelte, with the menu,
-- the theme and the logout, and the effect of frontend/src/routes/+layout.svelte that takes the theme
-- from the user's settings.
pub mod Themes
mod Examples
use integr8s_code.Base.{
  ℕ, zero, suc, ◌+◌, ◌%◌, Bool, true, false, not, ◌&&◌, Option, none, some, List, [], ◌∷◌, ◌++◌,
  if◌then◌else◌,
}

-- The values of `Theme`, in their order.
pub data Theme : Type 0 where
  light dark system : Theme

unfoldable pub theme_eq : Theme → Theme → Bool
theme_eq light light = true
theme_eq dark dark = true
theme_eq system system = true
theme_eq _ _ = false

abbrev pub themes : List Theme
themes = light ∷ dark ∷ system ∷ []

-- `themes.indexOf(current)`, of a theme that is there.
unfoldable pub index_of : Theme → List Theme → ℕ
unfolding theme_eq
index_of current [] = zero
index_of current (t ∷ ts) =
    let rest = index_of current ts in if theme_eq t current then zero else suc rest

unfoldable pub theme_at : List Theme → ℕ → Theme
theme_at [] i = light
theme_at (t ∷ ts) zero = t
theme_at (t ∷ ts) (suc i) = theme_at ts i

-- `themes[(themes.indexOf(current) + 1) % themes.length]`
unfoldable pub next_theme : Theme → Theme
unfolding index_of theme_at
next_theme current = theme_at themes ((index_of current themes + 1) % 3)

-- What the header sends and does.
pub data Effect : Type 0 where
  save_theme : Theme → Effect
  send_logout clear_cache go_to_login : Effect

abbrev pub behind_first : {A : Type 0} → List A → List A
behind_first [] = []
behind_first (x ∷ xs) = xs

-- `settings` is what the query has, of the type `S` of the user's settings; `saving` are the themes
-- that have been sent and not answered, the oldest first.
pub record Shell (S : Type 0) : Type 0 where
  pub menu_requested : Bool
  pub signed_in : Bool
  pub mode : Theme
  pub settings : Option S
  pub saving : List Theme

unfoldable pub is_menu_active : {S : Type 0} → (desktop : Bool) → Shell S → Bool
is_menu_active desktop h = h.menu_requested && not desktop

module _ {S : Type 0} where
  unfoldable pub toggle_menu : (desktop : Bool) → Shell S → Shell S
  unfolding is_menu_active
  toggle_menu desktop h = record h { menu_requested = not (is_menu_active desktop h) }

  unfoldable pub close_menu : Shell S → Shell S
  close_menu h = record h { menu_requested = false }

  -- `handleToggleTheme`
  unfoldable pub toggle_theme : Shell S → Shell S × List Effect
  unfolding next_theme
  toggle_theme h =
      let next = next_theme h.mode in
      if h.signed_in
      then (record h { mode = next; saving = h.saving ++ next ∷ [] }, save_theme next ∷ [])
      else (record h { mode = next }, [])

  unfoldable pub logout : Shell S → Shell S × List Effect
  logout h = (h, send_logout ∷ [])

  -- The logout has been answered or has failed.
  unfoldable pub logout_settled : Shell S → Shell S × List Effect
  unfolding close_menu
  logout_settled h = (close_menu h, clear_cache ∷ go_to_login ∷ [])

module _ {S : Type 0} (theme_of : S → Theme) (same : S → S → Bool) where
  -- Whether the query takes settings as new; it keeps those it has when they are the same.
  unfoldable pub is_news : S → Option S → Bool
  is_news s none = true
  is_news s (some stored) = not (same stored s)

  -- Settings come into the query, and the layout's effect sets the mode if they are new.
  unfoldable pub store_settings : S → Shell S → Shell S
  unfolding is_news
  store_settings s h =
      if is_news s h.settings then record h { mode = theme_of s; settings = some s } else h

  -- The API's answer to the theme that was sent first.
  unfoldable pub theme_saved : S → Shell S → Shell S
  unfolding store_settings
  theme_saved s h = record (store_settings s h) { saving = behind_first h.saving }
