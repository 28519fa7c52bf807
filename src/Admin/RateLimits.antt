-- ===== src/Admin/RateLimits.antt =====
-- The dialog of a user's rate limits: the script of
-- frontend/src/components/admin/users/RateLimitsModal.svelte. `R` is the type of a rule, `M` of a
-- multiplier; the form library keeps the form.
pub mod Rules
use integr8s_code.Base.{
  ℕ, zero, suc, ◌==◌, Bool, true, false, not, Option, none, some, List, [], ◌∷◌, ◌++◌,
  if◌then◌else◌, Text, set,
}

-- The part of the limits that the form holds.
pub record Limits (R M : Type 0) : Type 0 where
  pub bypass_rate_limit : Bool
  pub global_multiplier : M
  pub rules : List R
  pub notes : Option Text

pub data Effect (R M : Type 0) : Type 0 where
  save_limits : (user_id : Text) → Limits R M → Effect R M
  reset_limits : (user_id : Text) → Effect R M
  close refresh_users refresh_limits : Effect R M

-- `rules.filter((_, i) => i !== index)`, from the index `at'` on.
unfoldable pub remove_from : {R : Type 0} → (at' index : ℕ) → List R → List R
remove_from at' index [] = []
remove_from at' index (r ∷ rules) =
    let rest = remove_from (suc at') index rules in if at' == index then rest else r ∷ rest

unfoldable pub remove_rule : {R : Type 0} → (index : ℕ) → List R → List R
unfolding remove_from
remove_rule index rules = remove_from 0 index rules

abbrev pub add_rule : {R : Type 0} → (default_rule : R) → List R → List R
add_rule default_rule rules = rules ++ default_rule ∷ []

-- What the user does to the form and the API answers. The inputs of rules are disabled while the
-- limits are bypassed.
pub data Event (R M : Type 0) : Type 0 where
  loaded : Limits R M → Event R M
  bypass_set : Bool → Event R M
  multiplier_set : M → Event R M
  notes_set : Option Text → Event R M
  rule_set : (index : ℕ) → R → Event R M
  rule_added : Event R M
  rule_removed : (index : ℕ) → Event R M
  submitted : (valid : Bool) → Event R M
  saved reset_clicked reset_done : Event R M

module _ {R M : Type 0} where
  -- `multiplied`, where `same` is `===` on multipliers.
  unfoldable pub is_multiplied :
      (same : M → M → Bool) → (default_multiplier : M) → Limits R M → Bool
  is_multiplied same default_multiplier l = not (same l.global_multiplier default_multiplier)

  -- `effectiveRequests`, where `floor_times n m` is `Math.floor(n * m)`.
  unfoldable pub effective_requests : (floor_times : ℕ → M → ℕ) → (requests : ℕ) → Limits R M → ℕ
  effective_requests floor_times requests l = floor_times requests l.global_multiplier

  unless_bypassed : List R → Limits R M → Limits R M
  unless_bypassed rules l = if l.bypass_rate_limit then l else record l { rules = rules }

  unfoldable pub step :
      (user_id : Text) (default_rule : R) → Event R M → Limits R M → Limits R M × List (Effect R M)
  unfolding unless_bypassed remove_rule
  step user_id default_rule (loaded limits) l = (limits, [])
  step user_id default_rule (bypass_set b) l = (record l { bypass_rate_limit = b }, [])
  step user_id default_rule (multiplier_set m) l =
      (if l.bypass_rate_limit then l else record l { global_multiplier = m }, [])
  step user_id default_rule (notes_set notes) l = (record l { notes = notes }, [])
  step user_id default_rule (rule_set index rule) l =
      (unless_bypassed (set l.rules index rule) l, [])
  step user_id default_rule rule_added l = (unless_bypassed (add_rule default_rule l.rules) l, [])
  step user_id default_rule (rule_removed index) l =
      (unless_bypassed (remove_rule index l.rules) l, [])
  step user_id default_rule (submitted valid) l =
      (l, if valid then save_limits user_id l ∷ [] else [])
  step user_id default_rule saved l = (l, close ∷ refresh_users ∷ refresh_limits ∷ [])
  step user_id default_rule reset_clicked l = (l, reset_limits user_id ∷ [])
  step user_id default_rule reset_done l = (l, refresh_limits ∷ [])

  unfoldable pub steps :
      (user_id : Text) (default_rule : R) → List (Event R M) → Limits R M → Limits R M
  unfolding step
  steps user_id default_rule [] l = l
  steps user_id default_rule (e ∷ es) l =
      steps user_id default_rule es (step user_id default_rule e l).0
