-- ===== src/Admin/RateLimits/Rules.antt =====
-- A rule that is removed takes no other with it.
use integr8s_code.Base.{
  ℕ, zero, suc, ◌+◌, ◌<◌, ◌≡◌, refl, ap, ◌∙◌, List, [], ◌∷◌, ◌++◌, length, take, drop, append-nil,
  ap₂, arith,
}
use integr8s_code.Admin.RateLimits.{remove_from, remove_rule, add_rule}

module _ {R : Type 0} where
  -- Behind the index, everything is kept.
  remove_from-past :
      (at' index : ℕ) (rules : List R) → index < at' → remove_from at' index rules ≡ rules
  unfolding remove_from
  remove_from-past at' index [] h = refl
  remove_from-past at' index (r ∷ rules) h =
      ground (arith, remove_from-past (suc at') index rules (omega arith))

  remove_from-at :
      (at' index i : ℕ) (rules : List R)
      → index ≡ at' + i
      → remove_from at' index rules ≡ take i rules ++ drop (suc i) rules
  unfolding remove_from
  remove_from-at at' index zero [] h = refl
  remove_from-at at' index (suc i) [] h = refl
  remove_from-at at' index zero (r ∷ rules) h =
      ground (arith, remove_from-past (suc at') index rules (omega arith))
  remove_from-at at' index (suc i) (r ∷ rules) h =
      ground (arith, remove_from-at (suc at') index i rules (omega arith))

  take-length : (rules more : List R) → take (length rules) (rules ++ more) ≡ rules
  take-length [] more = refl
  take-length (r ∷ rules) more = ap (λ rs. r ∷ rs) (take-length rules more)

  drop-past : (r : R) (rules : List R) → drop (suc (length rules)) (rules ++ r ∷ []) ≡ []
  drop-past r [] = refl
  drop-past r (s ∷ rules) = drop-past r rules

  -- Removing the rule at an index leaves the rules before it and behind it, in their order; and to
  -- remove the rule that was just added leaves the rules as they were.
  remove_rule-add_rule :
      (i : ℕ) (r : R) (rules : List R)
      → (remove_rule i rules ≡ take i rules ++ drop (suc i) rules)
        × (remove_rule (length rules) (add_rule r rules) ≡ rules)
  unfolding remove_rule remove_from
  remove_rule-add_rule i r rules = (
    remove_from-at 0 i i rules (omega arith),
    remove_from-at 0 (length rules) (length rules) (add_rule r rules) (omega arith)
        ∙ ap₂ (λ xs ys. xs ++ ys) (take-length rules (r ∷ [])) (drop-past r rules)
        ∙ append-nil rules,
  )
