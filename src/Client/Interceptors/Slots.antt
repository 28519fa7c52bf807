-- ===== src/Client/Interceptors/Slots.antt =====
-- The list of interceptors as the map that it stands for, from ids to interceptors.
use integr8s_code.Base.{
  ◌&&◌, ℕ, suc, ◌≡◌, refl, Bool, Option, none, some, List, [], ◌∷◌, if◌then◌else◌, length, set,
  ◌==◌,
}
use integr8s_code.Client.Interceptors.{
  number, slot, is_some, clear, use_interceptor, get_interceptor_index, eject, update,
}

-- How a page uses a list, by the ids that it was given.
pub data Operation (I : Type 0) : Type 0 where
  register : I → Operation I
  ejected : ℕ → Operation I
  updated : ℕ → I → Operation I
  cleared : Operation I

-- A map from ids to interceptors, and the id that comes next.
pub record Registry (I : Type 0) : Type 0 where
  pub next : ℕ
  pub at : ℕ → Option I

module _ {I : Type 0} where
  abbrev pub view : List (Option I) → Registry I
  view fns = record { next = length fns; at = slot fns }

  abbrev pub spec_step : Operation I → Registry I → Registry I
  spec_step (register fn) m = record {
    next = suc m.next;
    at = λ j. if m.next == j then some fn else m.at j;
  }
  spec_step (ejected i) m = record { next = m.next; at = λ j. if i == j then none else m.at j }
  spec_step (updated i fn) m = record {
    next = m.next;
    at = λ j. if i == j && is_some (m.at i) then some fn else m.at j;
  }
  spec_step cleared m = record { next = 0; at = λ j. none }

  abbrev pub spec_steps : List (Operation I) → Registry I → Registry I
  spec_steps [] m = m
  spec_steps (o ∷ os) m = spec_steps os (spec_step o m)

module _ {I : Type 0} (same : I → I → Bool) where
  abbrev pub apply : Operation I → List (Option I) → List (Option I)
  apply (register fn) fns = (use_interceptor fn fns).0
  apply (ejected i) fns = eject same (number i) fns
  apply (updated i fn) fns = (update same (number i) fn fns).0
  apply cleared fns = clear fns

  abbrev pub apply_all : List (Operation I) → List (Option I) → List (Option I)
  apply_all [] fns = fns
  apply_all (o ∷ os) fns = apply_all os (apply o fns)

  pub eject-none :
      (i : ℕ) (fns : List (Option I)) → slot fns i ≡ none → eject same (number i) fns ≡ fns
  unfolding eject get_interceptor_index
  eject-none i fns e = rw e refl

  pub eject-some :
      (i : ℕ) (f : I) (fns : List (Option I))
      → slot fns i ≡ some f
      → eject same (number i) fns ≡ set fns i none
  unfolding eject get_interceptor_index
  eject-some i f fns e = rw (e, e) refl
