-- ===== src/Client/Interceptors.antt =====
-- The lists of interceptors: the class Interceptors of frontend/src/lib/api/client/utils.gen.ts, and
-- the loops of client.gen.ts that run them. `I` is the type of an interceptor and `same` is `===` on
-- them; an interceptor is a function, and so never falsy.
pub mod Slots
pub mod Runs
mod Examples
use integr8s_code.Base.{
  ℕ, zero, suc, ◌+◌, ◌-◌, Bool, true, false, Option, none, some, List, [], ◌∷◌, ◌++◌, if◌then◌else◌,
  length, get_elem?, set,
}

-- The place of an interceptor, or the interceptor itself.
pub data InterceptorId (I : Type 0) : Type 0 where
  number : ℕ → InterceptorId I
  interceptor : I → InterceptorId I

module _ {I : Type 0} where
  -- `fns[index]`, where a place that was emptied and one out of range are alike.
  unfoldable pub slot : List (Option I) → ℕ → Option I
  slot [] i = none
  slot (o ∷ fns) zero = o
  slot (o ∷ fns) (suc i) = slot fns i

  abbrev pub is_some : Option I → Bool
  is_some none = false
  is_some (some _) = true

  -- `clear`
  unfoldable pub clear : List (Option I) → List (Option I)
  clear fns = []

  -- `use`: the list and the id of the new interceptor.
  unfoldable pub use_interceptor : I → List (Option I) → List (Option I) × ℕ
  use_interceptor fn fns = (fns ++ some fn ∷ [], length (fns ++ some fn ∷ []) - 1)

module _ {I : Type 0} (same : I → I → Bool) where
  abbrev holds : I → Option I → Bool
  holds fn none = false
  holds fn (some f) = same f fn

  abbrev next_index : Option ℕ → Option ℕ
  next_index none = none
  next_index (some i) = some (suc i)

  -- `fns.indexOf(id)`, where `none` is -1.
  unfoldable pub index_of : I → List (Option I) → Option ℕ
  index_of fn [] = none
  index_of fn (o ∷ fns) =
      let later = next_index (index_of fn fns) in if holds fn o then some 0 else later

  unfoldable pub get_interceptor_index : InterceptorId I → List (Option I) → Option ℕ
  unfolding slot index_of
  get_interceptor_index (number id) fns = if is_some (slot fns id) then some id else none
  get_interceptor_index (interceptor fn) fns = index_of fn fns

  -- `fns[index]` for an index that may be -1.
  abbrev pub slot_at : List (Option I) → Option ℕ → Option I
  slot_at fns none = none
  slot_at fns (some i) = slot fns i

  abbrev pub replace : List (Option I) → Option ℕ → Option I → List (Option I)
  replace fns none o = fns
  replace fns (some i) o = set fns i o

  unfoldable pub eject : InterceptorId I → List (Option I) → List (Option I)
  unfolding get_interceptor_index
  eject id fns =
      let index = get_interceptor_index id fns in
      if is_some (slot_at fns index) then replace fns index none else fns

  unfoldable pub exists : InterceptorId I → List (Option I) → Bool
  unfolding get_interceptor_index
  exists id fns = is_some (slot_at fns (get_interceptor_index id fns))

  -- `update`: the list and whether the id, and not `false`, is returned.
  unfoldable pub update : InterceptorId I → I → List (Option I) → List (Option I) × Bool
  unfolding get_interceptor_index
  update id fn fns =
      let index = get_interceptor_index id fns in
      if is_some (slot_at fns index) then (replace fns index (some fn), true) else (fns, false)

-- `for (const fn of fns) if (fn) x = await fn(x, …)`
unfoldable pub run_interceptors : {A : Type 0} → List (Option (A → A)) → A → A
run_interceptors [] x = x
run_interceptors (none ∷ fns) x = run_interceptors fns x
run_interceptors (some fn ∷ fns) x = run_interceptors fns (fn x)
