-- ===== src/Events/Filters.antt =====
-- What the active filters' summary tells.
use integr8s_code.Base.{
  inl, inr, ◌≡◌, refl, ◌∙◌, sym, Bool, ◌&&◌, List, [], ◌∷◌, map, any, length, length-map,
  Bool-cases, ltb, Text, text_eq, arith,
}
use integr8s_code.Base.{filter}
use integr8s_code.Events.{
  EventFilter, FilterKey, filter_keys, key_name, is_active, active_filter_keys, has_active_filters,
  get_active_filter_count, get_active_filter_summary,
}
use integr8s_code.Formatters.{field_title, title_unit}

any_mapped {ℓ κ} :
    {A : Type ℓ} {B : Type κ} (q : B → Bool) (g : A → B) (p : A → Bool) (xs : List A)
    → any q (map g (filter p xs)) ≡ any (λ x. p x && q (g x)) xs
unfolding filter
any_mapped q g p [] = refl
any_mapped q g p (x ∷ xs) = elim (Bool-cases (p x)) [
  | inl e ↦ rw (e, any_mapped q g p xs)
  | inr e ↦ rw (e, any_mapped q g p xs)
]

abbrev pub title : FilterKey → Text
title k = field_title (key_name k)

titles-differ :
    (p : FilterKey → Bool) (k : FilterKey)
    → any (λ j. p j && text_eq (title k) (title j)) filter_keys ≡ p k
unfolding field_title key_name title_unit text_eq
titles-differ p FilterKey.event_types_key = ground arith
titles-differ p _ = ground arith

-- The summary holds the title of a key exactly if that key's filter is set: a text that is not empty,
-- or a list of types that is not empty.
pub summary-is_active :
    (filters : EventFilter) (k : FilterKey)
    → any (text_eq (title k)) (get_active_filter_summary filters) ≡ is_active filters k
unfolding get_active_filter_summary
summary-is_active filters k =
    any_mapped (text_eq (title k)) title (is_active filters) filter_keys
    ∙ titles-differ (is_active filters) k

any-filter {ℓ} : {A : Type ℓ} (p : A → Bool) (xs : List A) → ltb 0 (length (filter p xs)) ≡ any p xs
unfolding filter
any-filter p [] = refl
any-filter p (x ∷ xs) = elim (Bool-cases (p x)) [
  | inl e ↦ rw e (ground arith)
  | inr e ↦ rw e (any-filter p xs)
]

-- The three answers about active filters agree: the count is the number of titles in the summary, and
-- filters are active exactly if that of some key is set.
pub count-summary :
    (filters : EventFilter)
    → (get_active_filter_count filters ≡ length (get_active_filter_summary filters))
      × (has_active_filters filters ≡ any (is_active filters) filter_keys)
unfolding get_active_filter_count get_active_filter_summary has_active_filters
count-summary filters = (
  sym (length-map title (active_filter_keys filters)),
  any-filter (is_active filters) filter_keys,
)
