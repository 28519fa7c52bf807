-- ===== src/Admin/System.antt =====
-- The page of the system's settings, the script of frontend/src/routes/admin/settings/+page.svelte.
-- `S` is the type of the settings; the form library keeps the form and tells whether it is valid.
use integr8s_code.Base.{
  Bool, true, false, not, ◌||◌, Option, some, List, [], ◌∷◌, if◌then◌else◌, Text, codes,
}

pub record Page (S : Type 0) : Type 0 where
  pub stored : Option S
  pub form : S
  pub saving : Bool
  pub resetting : Bool

pub data Effect (S : Type 0) : Type 0 where
  save : S → Effect S
  reset : Effect S
  success : Text → Effect S

-- `loaded`, `saved` and `reset_done` bring the API's answers; `loaded` is new data in the query.
pub data Event (S : Type 0) : Type 0 where
  loaded edited saved reset_done : S → Event S
  submitted : (valid : Bool) → Event S
  save_failed reset_failed : Event S
  reset_clicked : (confirmed : Bool) → Event S

module _ {S : Type 0} where
  unfoldable pub busy : Page S → Bool
  busy p = p.saving || p.resetting

  -- New settings in the query: the form starts over from them.
  unfoldable pub store_settings : S → Page S → Page S
  store_settings s p = record p { stored = some s; form = s }

  -- `resetSettings`
  unfoldable pub reset_settings : (confirmed : Bool) → Page S → Page S × List (Effect S)
  reset_settings confirmed p =
      if not confirmed then (p, []) else (record p { resetting = true }, reset ∷ [])

  -- The buttons are disabled while the page is busy.
  unfoldable pub step : Event S → Page S → Page S × List (Effect S)
  unfolding busy store_settings reset_settings
  step (loaded s) p = (store_settings s p, [])
  step (edited s) p = (record p { form = s }, [])
  step (saved s) p = (
    record (store_settings s p) { saving = false },
    success (codes "Settings saved successfully") ∷ [],
  )
  step (reset_done s) p = (
    record (store_settings s p) { resetting = false },
    success (codes "Settings reset to defaults") ∷ [],
  )
  step (submitted valid) p =
      if busy p
      then (p, [])
      else if valid
      then (record p { saving = true }, save p.form ∷ [])
      else (p, [])
  step save_failed p = (record p { saving = false }, [])
  step reset_failed p = (record p { resetting = false }, [])
  step (reset_clicked confirmed) p = if busy p then (p, []) else reset_settings confirmed p
