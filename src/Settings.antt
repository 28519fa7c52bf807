-- ===== src/Settings.antt =====
-- The page of a user's settings, the script of
-- frontend/src/routes/(auth)/settings/+page.svelte: its form, its tabs and the history. The form
-- library keeps the form; it takes a section as changed if it differs from what the form began with.
pub mod Saving
mod Examples
use integr8s_code.Base.{
  Bool, true, false, not, ◌||◌, Option, none, some, List, [], ◌∷◌, any, if◌then◌else◌, Text, codes,
  text_eq,
}

-- The form's data, and what the page takes of the settings; `T`, `N` and `E` are the sections' types.
pub record Settings (T N E : Type 0) : Type 0 where
  pub theme : T
  pub notifications : N
  pub editor : E

-- The body of an update, where `null` is `none`.
pub record Update (T N E : Type 0) : Type 0 where
  pub theme : Option T
  pub notifications : Option N
  pub editor : Option E

-- Whether two values of a section differ, as the form library finds out.
pub record Differs (T N E : Type 0) : Type 0 where
  pub theme : T → T → Bool
  pub notifications : N → N → Bool
  pub editor : E → E → Bool

-- `initial` is what the form began with, `form` what it holds.
pub record Page (T N E : Type 0) : Type 0 where
  pub active_tab : Text
  pub show_history : Bool
  pub stored : Option (Settings T N E)
  pub initial : Settings T N E
  pub form : Settings T N E

pub data Effect (T N E : Type 0) : Type 0 where
  success info : Text → Effect T N E
  invalidate_history : Effect T N E
  save : Update T N E → Effect T N E
  restore : (timestamp : Text) → Effect T N E

abbrev pub tabs : List Text
tabs = codes "general" ∷ codes "editor" ∷ codes "notifications" ∷ []

-- The first tab whose id is a key of the form's errors.
unfoldable pub first_tab : (errors tabs : List Text) → Option Text
unfolding text_eq
first_tab errors [] = none
first_tab errors (tab ∷ tabs) =
    let rest = first_tab errors tabs in if any (text_eq tab) errors then some tab else rest

abbrev tab_or : Text → Option Text → Text
tab_or active none = active
tab_or active (some tab) = tab

module _ {T N E : Type 0} (differs : Differs T N E) where
  -- `isTainted()`
  unfoldable pub is_tainted : Page T N E → Bool
  is_tainted p =
      differs.theme p.initial.theme p.form.theme
      || (differs.notifications p.initial.notifications p.form.notifications
          || differs.editor p.initial.editor p.form.editor)

  -- `isTainted(section) ? section : null`
  unfoldable pub update_of : Page T N E → Update T N E
  update_of p = record {
    theme = if differs.theme p.initial.theme p.form.theme then some p.form.theme else none;
    notifications =
        if differs.notifications p.initial.notifications p.form.notifications
        then some p.form.notifications
        else none;
    editor = if differs.editor p.initial.editor p.form.editor then some p.form.editor else none;
  }

  -- `onUpdate` of the form, which has the keys of its errors if it is not valid.
  unfoldable pub on_update :
      (errors : Option (List Text)) → Page T N E → Page T N E × List (Effect T N E)
  unfolding first_tab is_tainted update_of
  on_update (some errors) p =
      (record p { active_tab = tab_or p.active_tab (first_tab errors tabs) }, [])
  on_update none p =
      if not (is_tainted p)
      then (p, info (codes "No changes to save") ∷ [])
      else (p, save (update_of p) ∷ [])

module _ {T N E : Type 0} where
  -- New settings in the query: the form starts over from them.
  unfoldable pub load : Settings T N E → Page T N E → Page T N E
  load s p = record p { stored = some s; initial = s; form = s }

  unfoldable pub on_saved : Settings T N E → Page T N E → Page T N E × List (Effect T N E)
  unfolding load
  on_saved s p = (load s p, invalidate_history ∷ success (codes "Settings saved successfully") ∷ [])

  unfoldable pub on_restored : Settings T N E → Page T N E → Page T N E × List (Effect T N E)
  unfolding load
  on_restored s p = (
    record (load s p) { show_history = false },
    invalidate_history ∷ success (codes "Settings restored successfully") ∷ [],
  )

  unfoldable pub restore_settings : (timestamp : Text) → (confirmed : Bool) → List (Effect T N E)
  restore_settings timestamp confirmed = if not confirmed then [] else restore timestamp ∷ []
