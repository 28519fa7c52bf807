-- ===== src/Admin/Users/Filtering.antt =====
-- Resetting the list of users shows all of them.
use integr8s_code.Base.{
  ◌≡◌, ◌↔◌, refl, ap, inl, inr, Bool, true, false, Bool-cases, ◌||◌, Option, none, some, is_some,
  List, [], ◌∷◌, Text, arith,
}
use integr8s_code.Admin.Users.{
  UserListFilters, Page, Event, no_filters, initial, search_or_null, users_query, is_non_empty,
  has_filters_active, reset, reset_clicked, step, steps,
}

none_of {ℓ} : {A : Type ℓ} (o : Option A) → is_some o ≡ false → o ≡ none
none_of none h = refl
none_of (some a) h = absurd (cc)

search_none : (o : Option Text) → is_non_empty o ≡ false → search_or_null o ≡ none
unfolding is_non_empty search_or_null
search_none none h = refl
search_none (some s) h = ground arith

search_inactive : (o : Option Text) → search_or_null o ≡ none → is_non_empty o ≡ false
unfolding is_non_empty search_or_null
search_inactive none h = refl
search_inactive (some []) h = refl
search_inactive (some (c ∷ s)) h = absurd (cc)

six_false :
    (a b c d e f : Bool)
    → (a || (b || (c || (d || (e || f))))) ≡ false
    → (a ≡ false) × (b ≡ false) × (c ≡ false) × (d ≡ false) × (e ≡ false) × (f ≡ false)
six_false a b c d e f h =
    (ground arith, ground arith, ground arith, ground arith, ground arith, ground arith)

-- The filters that the query asks for.
abbrev asked : UserListFilters → UserListFilters
asked f = record f { search = search_or_null f.search }

asked_inactive : (f : UserListFilters) → has_filters_active f ≡ false → asked f ≡ no_filters
unfolding has_filters_active
asked_inactive f h =
    let k =
      six_false (is_non_empty f.search) (is_some f.role) (is_some f.is_active)
        (is_some f.bypass_rate_limit) (is_some f.has_custom_limits) (is_some f.custom_multiplier)
        h in
    rw
      (
        search_none f.search k.0,
        none_of f.role k.1,
        none_of f.is_active k.2,
        none_of f.bypass_rate_limit k.3,
        none_of f.has_custom_limits k.4,
        none_of f.custom_multiplier k.5,
      )
      refl

inactive_asked : (f : UserListFilters) → asked f ≡ no_filters → has_filters_active f ≡ false
unfolding has_filters_active
inactive_asked f e =
    rw
      (
        has_filters_active,
        search_inactive f.search (ap (λ g. g.search) e),
        ap (λ g. g.role) e,
        ap (λ g. g.is_active) e,
        ap (λ g. g.bypass_rate_limit) e,
        ap (λ g. g.has_custom_limits) e,
        ap (λ g. g.custom_multiplier) e,
      )
      refl

reset_inactive : (p : Page) → has_filters_active (reset p).filters ≡ false
unfolding reset search_or_null
reset_inactive p = elim (Bool-cases (has_filters_active p.filters)) [
  | inl e ↦ rw (reset, e) (inactive_asked no_filters refl)
  | inr e ↦ rw (reset, e) e
]

reset_offset : (p : Page) → has_filters_active p.filters ≡ true → (users_query (reset p)).offset ≡ 0
unfolding reset users_query
reset_offset p h = rw (reset, users_query, h) (ground arith)

-- The button that resets the filters is enabled exactly if the query asks for a filter; and after it,
-- whatever was chosen before, no filter is active or asked for, and if one was, the list begins anew.
pub users_query-reset :
    (es : List Event)
    → let p = steps es initial in
      let q = step reset_clicked p in
      ((has_filters_active p.filters ≡ false) ↔ ((users_query p).filters ≡ no_filters))
      × (has_filters_active q.filters ≡ false)
      × ((users_query q).filters ≡ no_filters)
      × (has_filters_active p.filters ≡ true → (users_query q).offset ≡ 0)
unfolding users_query step
users_query-reset es =
    let p = steps es initial in
    (
      (asked_inactive p.filters, inactive_asked p.filters),
      reset_inactive p,
      asked_inactive (reset p).filters (reset_inactive p),
      reset_offset p,
    )
