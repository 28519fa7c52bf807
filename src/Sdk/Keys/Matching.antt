-- ===== src/Sdk/Keys/Matching.antt =====
-- What a refresh after a change reaches in the cache.
use integr8s_code.Base.{
  ℕ, zero, suc, ◌≡◌, ◌↔◌, refl, ap, sym, ◌∙◌, subst, Bool, true, false, false≢true, Bool-cases, inl,
  inr, not, ◌&&◌, ◌||◌, both, Option, none, some, List, [], ◌∷◌, any, get_elem?, Text, codes,
  text_eq, text_eq_refl, text_eq→eq, lookup, arith,
}
use integr8s_code.Client.Values.{Value, string}
use integr8s_code.Sdk.Endpoints.{Endpoint}
use integr8s_code.Sdk.Operations.{operations}
use integr8s_code.Sdk.Keys.{
  KeyOptions, no_options, create_query_key, query_key, base_or, matches, is_truthy,
}

abbrev same_id : Endpoint → Endpoint → Bool
same_id e f = text_eq (codes e.id) (codes f.id)

and_true : (a b : Bool) → b ≡ true → (a && (b && true)) ≡ a
and_true a b h = ground arith

or_left : (a b : Bool) → a ≡ true → (a || b) ≡ true
or_left a b h = ground arith

or_right : (a b : Bool) → b ≡ true → (a || b) ≡ true
or_right a b h = ground arith

some_injective {ℓ} : {A : Type ℓ} (x y : A) → some x ≡ some y → x ≡ y
some_injective x y e = cc

module _ {A : Type 0} (same : A → A → Bool) where
  distinct : List A → Bool
  distinct [] = true
  distinct (x ∷ xs) = not (any (same x) xs) && distinct xs

  any_get :
      (x y : A) (xs : List A) (i : ℕ)
      → get_elem? xs i ≡ some y
      → same x y ≡ true
      → any (same x) xs ≡ true
  any_get x y [] i h k = absurd (cc)
  any_get x y (z ∷ xs) zero h k =
      or_left (same x z) (any (same x) xs) (ap (same x) (some_injective z y h) ∙ k)
  any_get x y (z ∷ xs) (suc i) h k = or_right (same x z) (any (same x) xs) (any_get x y xs i h k)

  missing :
      (x y : A) (xs : List A) (i : ℕ)
      → not (any (same x) xs) ≡ true
      → get_elem? xs i ≡ some y
      → same x y ≡ false
  missing x y xs i h g = elim (Bool-cases (same x y)) [
    | inl e ↦ absurd (false≢true (sym (rw (any_get x y xs i g e) refl) ∙ h))
    | inr e ↦ e
  ]

  -- In a list of distinct entries, two places hold the same entry only if they are one.
  distinct_index :
      ((x y : A) → same x y ≡ true → same y x ≡ true)
      → (xs : List A) (i j : ℕ) (x y : A) → distinct xs ≡ true
      → get_elem? xs i ≡ some x
      → get_elem? xs j ≡ some y
      → same x y ≡ true
      → i ≡ j
  unfolding distinct
  distinct_index comm [] i j x y d g h e = absurd (cc)
  distinct_index comm (z ∷ zs) zero zero x y d g h e = refl
  distinct_index comm (z ∷ zs) zero (suc j) x y d g h e =
      let k = both (not (any (same z) zs)) (distinct zs) d in
      absurd (
        false≢true (
          sym (missing z y zs j k.0 h)
          ∙ subst (λ w. same w y ≡ true) (sym (some_injective z x g)) e))
  distinct_index comm (z ∷ zs) (suc i) zero x y d g h e =
      let k = both (not (any (same z) zs)) (distinct zs) d in
      absurd (
        false≢true (
          sym (missing z x zs i k.0 g)
          ∙ subst (λ w. same w x ≡ true) (sym (some_injective z y h)) (comm x y e)))
  distinct_index comm (z ∷ zs) (suc i) (suc j) x y d g h e =
      let k = both (not (any (same z) zs)) (distinct zs) d in
      ap suc (distinct_index comm zs i j x y k.1 g h e)

operations-distinct : distinct same_id operations ≡ true
unfolding distinct text_eq
operations-distinct = refl

same_id_comm : (e f : Endpoint) → same_id e f ≡ true → same_id f e ≡ true
same_id_comm e f h =
    subst (λ s. text_eq s (codes e.id) ≡ true) (text_eq→eq (codes e.id) (codes f.id) h)
      (text_eq_refl (codes e.id))

same_place :
    (i j : ℕ) (e f : Endpoint)
    → get_elem? operations i ≡ some e
    → get_elem? operations j ≡ some f
    → i ≡ j
    → same_id e f ≡ true
same_place i j e f g h k =
    let same = some_injective e f (sym g ∙ ap (get_elem? operations) k ∙ h) in
    subst (λ x. same_id e x ≡ true) same (text_eq_refl (codes e.id))

module _ (deep : Value → Value → Bool)
    (deep_text : (s t : Text) → deep (string s) (string t) ≡ text_eq s t)
    (deep_refl : (v : Value) → deep v v ≡ true) where
  matches-query_key :
      (configured : Option Text) (e f : Endpoint) (o : KeyOptions)
      → o.base_url ≡ none
      → matches deep (query_key configured e no_options) (query_key configured f o) ≡ same_id e f
  unfolding matches query_key create_query_key is_truthy lookup text_eq
  matches-query_key configured e f o h =
      let base = base_or none configured in
      let ids = deep (string (codes e.id)) (string (codes f.id)) in
      ap (λ b. ids && (deep base (base_or b configured) && true)) h
      ∙ and_true ids (deep base base) (deep_refl base)
      ∙ deep_text (codes e.id) (codes f.id)

  -- A refresh by the key of an operation without options reaches every cached query of that operation,
  -- whatever its options are, and no query of another operation: if TanStack's match compares texts
  -- and takes every value for its own match, and the queries are made for the same base URL.
  pub matches-operations :
      (configured : Option Text) (i j : ℕ) (e f : Endpoint) (o : KeyOptions)
      → get_elem? operations i ≡ some e
      → get_elem? operations j ≡ some f
      → o.base_url ≡ none
      → (matches deep (query_key configured e no_options) (query_key configured f o) ≡ true)
        ↔ (i ≡ j)
  matches-operations configured i j e f o g h b =
      let m = matches-query_key configured e f o b in
      (
        λ k.
            distinct_index same_id same_id_comm operations i j e f operations-distinct g h
              (sym m ∙ k),
        λ k. m ∙ same_place i j e f g h k,
      )
