-- ===== src/Client/Interceptors/Runs.antt =====
-- Which interceptors run, and in which order.
use integr8s_code.Base.{
  ℕ, suc, zero, ◌-◌, ◌≡◌, refl, ◌∙◌, Bool, inl, inr, Option, Option-cases, none, some, List, [],
  ◌∷◌, ◌++◌, length, set, arith, length-append, take, drop,
}
use integr8s_code.Client.Interceptors.{number, slot, use_interceptor, eject, run_interceptors}
use integr8s_code.Client.Interceptors.Slots.{eject-none, eject-some}

module _ {A : Type 0} where
  run-append :
      (fns more : List (Option (A → A))) (x : A)
      → run_interceptors (fns ++ more) x ≡ run_interceptors more (run_interceptors fns x)
  unfolding run_interceptors
  run-append [] more x = refl
  run-append (none ∷ fns) more x = run-append fns more x
  run-append (some fn ∷ fns) more x = run-append fns more (fn x)

  -- Running all but place `i`.
  abbrev pub run_without : ℕ → List (Option (A → A)) → A → A
  run_without i fns x = run_interceptors (drop (suc i) fns) (run_interceptors (take i fns) x)

  run-empty_slot :
      (fns : List (Option (A → A))) (i : ℕ) (x : A)
      → slot fns i ≡ none
      → run_interceptors fns x ≡ run_without i fns x
  unfolding run_interceptors slot
  run-empty_slot [] zero x e = refl
  run-empty_slot [] (suc i) x e = refl
  run-empty_slot (none ∷ fns) zero x e = refl
  run-empty_slot (some fn ∷ fns) zero x e = absurd (cc)
  run-empty_slot (none ∷ fns) (suc i) x e = run-empty_slot fns i x e
  run-empty_slot (some fn ∷ fns) (suc i) x e = run-empty_slot fns i (fn x) e

  run_emptied :
      (fns : List (Option (A → A))) (i : ℕ) (x : A)
      → run_interceptors (set fns i none) x ≡ run_without i fns x
  unfolding run_interceptors
  run_emptied [] zero x = refl
  run_emptied [] (suc i) x = refl
  run_emptied (none ∷ fns) zero x = refl
  run_emptied (some fn ∷ fns) zero x = refl
  run_emptied (none ∷ fns) (suc i) x = run_emptied fns i x
  run_emptied (some fn ∷ fns) (suc i) x = run_emptied fns i (fn x)

  length-pred :
      (fns : List (Option (A → A))) (o : Option (A → A)) → length (fns ++ o ∷ []) - 1 ≡ length fns
  length-pred fns o = rw (length-append fns (o ∷ [])) (omega arith)

  run-last_slot :
      (fns : List (Option (A → A))) (fn : A → A) (x : A)
      → run_without (length fns) (fns ++ some fn ∷ []) x ≡ run_interceptors fns x
  unfolding run_interceptors
  run-last_slot [] fn x = refl
  run-last_slot (none ∷ fns) fn x = run-last_slot fns fn x
  run-last_slot (some f ∷ fns) fn x = run-last_slot fns fn (f x)

module _ {A : Type 0} (same : (A → A) → (A → A) → Bool) where
  run-eject :
      (i : ℕ) (fns : List (Option (A → A))) (x : A)
      → run_interceptors (eject same (number i) fns) x ≡ run_without i fns x
  run-eject i fns x = elim (Option-cases (slot fns i)) [
    | inl e ↦ rw (eject-none same i fns e) (run-empty_slot fns i x e)
    | inr (f, e) ↦ rw (eject-some same i f fns e) (run_emptied fns i x)
  ]

  -- A new interceptor runs after all earlier ones, on what they return. Ejecting an id leaves out the
  -- interceptor at that place, and no other one, from the run; and ejecting the id that a
  -- registration returned undoes it.
  pub run_interceptors_lem :
      (fn : A → A) (fns : List (Option (A → A))) (i : ℕ) (x : A)
      → let (more, id) = use_interceptor fn fns in
        (run_interceptors more x ≡ fn (run_interceptors fns x))
        × (run_interceptors (eject same (number i) fns) x ≡ run_without i fns x)
        × (run_interceptors (eject same (number id) more) x ≡ run_interceptors fns x)
  unfolding use_interceptor run_interceptors
  run_interceptors_lem fn fns i x = (
    run-append fns (some fn ∷ []) x,
    run-eject i fns x,
    run-eject (length (fns ++ some fn ∷ []) - 1) (fns ++ some fn ∷ []) x
        ∙ rw (length-pred fns (some fn)) (run-last_slot fns fn x),
  )
