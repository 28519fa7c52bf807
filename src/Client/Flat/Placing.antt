-- ===== src/Client/Flat/Placing.antt =====
-- Each parameter of an object goes to the place that its field names.
use integr8s_code.Base.{
  ◌≡◌, refl, ap, sym, ◌∙◌, inl, inr, Bool, true, false, Bool-cases, both, Option, none, some,
  Option-cases, List, [], ◌∷◌, if◌then◌else◌, Text, text_eq, lookup, lookup-insert, all,
}
use integr8s_code.Client.Values.{Value, object, Members, entries}
use integr8s_code.Client.Flat.{
  Slot, body, headers, path, query, Field, placed, aliased, fields, Target, place, whole, KeyMap,
  add_field, add_fields, build_key_map, Held, missing, entries_held, other, Params, empty_params,
  slot_of, name_or, write_target, extra_place, write_extra, write_entry, write_entries,
  entries_of_arg, write_arg, write_args, is_bare, stripped, strip_empty_slots, build_client_params,
}
use integr8s_code.Client.Flat.Writing.{
  place_of, is_place, value_in, IsRecords, IsWritten, write_slot-IsWritten, write_extra-IsWritten,
}

abbrev pub is_placed : Field → Bool
is_placed (placed _ _ _) = true
is_placed (aliased _ _) = false

-- The last of the entries that has this place.
abbrev pub last_placed :
    KeyMap
    → List (Slot × Bool)
    → (slot : Slot) → (name : Text) → List (Text × Value)
    → Option Value
    → Option Value
last_placed m allowed slot name [] found = found
last_placed m allowed slot name ((key, v) ∷ es) found =
    last_placed m allowed slot name es
      (if is_place (place_of allowed (lookup key m) key) slot name then some v else found)

-- The key map makes no whole slot of a key.
abbrev IsPlace : Option Target → Type 0
IsPlace o = (slot : Slot) → ¬ (o ≡ some (whole slot))

write_entry-IsWritten :
    (m : KeyMap) (allowed : List (Slot × Bool)) (key : Text) (v : Value) (p : Params)
    → IsPlace (lookup key m)
    → IsRecords p
    → (q : Params) × (write_entry m allowed key v p ≡ some q)
      × IsWritten (place_of allowed (lookup key m) key) v p q
unfolding write_entry write_target write_extra
write_entry-IsWritten m allowed key v p w r = elim (Option-cases (lookup key m)) [
  | inl e ↦ rw (write_entry, e) (write_extra-IsWritten (extra_place allowed key) v p r)
  | inr (place slot name, e) ↦
      rw (write_entry, e) (write_slot-IsWritten slot (name_or name key) v p r)
  | inr (whole slot, e) ↦ absurd (w slot e)
]

write_entries-last_placed :
    (m : KeyMap) (allowed : List (Slot × Bool)) (es : List (Text × Value)) (p : Params)
    → ((key : Text) → IsPlace (lookup key m))
    → IsRecords p
    → (q : Params) × (write_entries m allowed es p ≡ some q)
      × ((slot : Slot) (name : Text)
          → value_in (slot_of slot q) name
            ≡ last_placed m allowed slot name es (value_in (slot_of slot p) name))
unfolding write_entries
write_entries-last_placed m allowed [] p w r = (p, refl, λ slot name. refl)
write_entries-last_placed m allowed ((key, v) ∷ es) p w r =
    let (q, e, t) = write_entry-IsWritten m allowed key v p (w key) r in
    let (z, f, u) = write_entries-last_placed m allowed es q w t.records in
    (
      z,
      rw e f,
      λ slot name. u slot name ∙ ap (last_placed m allowed slot name es) (t.values slot name),
    )

AllPlaces : KeyMap → Type 0
AllPlaces m = (key : Text) → IsPlace (lookup key m)

empty-AllPlaces : AllPlaces []
unfolding AllPlaces lookup
empty-AllPlaces key slot e = absurd (cc)

add_field-AllPlaces :
    (f : Field) (m : KeyMap) → is_placed f ≡ true → AllPlaces m → AllPlaces (add_field f m)
unfolding AllPlaces add_field
add_field-AllPlaces (placed slot none name) m h w = w
add_field-AllPlaces (placed slot (some []) name) m h w = w
add_field-AllPlaces (placed slot (some (c ∷ k)) name) m h w = λ key s e.
    elim (Bool-cases (text_eq (c ∷ k) key)) [
      | inl y ↦ absurd (
          let z : some (place slot name) ≡ some (whole s) =
            sym (
              lookup-insert (c ∷ k) key (place slot name) m
              ∙ ap (λ b. if b then some (place slot name) else lookup key m) y)
            ∙ e in
          cc)
      | inr n ↦ w key s (
          sym (
            lookup-insert (c ∷ k) key (place slot name) m
            ∙ ap (λ b. if b then some (place slot name) else lookup key m) n)
          ∙ e)
    ]
add_field-AllPlaces (aliased key slot) m h w = absurd (cc)

add_fields-AllPlaces :
    (fs : List Field) (m : KeyMap)
    → all is_placed fs ≡ true
    → AllPlaces m
    → AllPlaces (add_fields fs m)
unfolding add_fields
add_fields-AllPlaces [] m h w = w
add_fields-AllPlaces (f ∷ fs) m h w =
    let b = both (is_placed f) (all is_placed fs) h in
    add_fields-AllPlaces fs (add_field f m) b.1 (add_field-AllPlaces f m b.0 w)

value_in-stripped : (h : Held) (name : Text) → value_in (stripped h) name ≡ value_in h name
unfolding stripped is_bare lookup
value_in-stripped missing name = refl
value_in-stripped (entries_held []) name = refl
value_in-stripped (entries_held (e ∷ es)) name = refl
value_in-stripped (other v) name = elim (Bool-cases (is_bare (other v))) [
  | inl e ↦ rw e refl
  | inr e ↦ rw e refl
]

value_in-strip_empty_slots :
    (slot : Slot) (p : Params) (name : Text)
    → value_in (slot_of slot (strip_empty_slots p)) name ≡ value_in (slot_of slot p) name
unfolding strip_empty_slots slot_of
value_in-strip_empty_slots body p name = refl
value_in-strip_empty_slots headers p name = value_in-stripped p.headers name
value_in-strip_empty_slots path p name = value_in-stripped p.path name
value_in-strip_empty_slots query p name = value_in-stripped p.query name

empty-IsRecords : IsRecords empty_params
unfolding slot_of
empty-IsRecords body = refl
empty-IsRecords headers = refl
empty-IsRecords path = refl
empty-IsRecords query = refl

empty-values : (slot : Slot) (name : Text) → value_in (slot_of slot empty_params) name ≡ none
unfolding slot_of lookup
empty-values body name = refl
empty-values headers name = refl
empty-values path name = refl
empty-values query name = refl

-- Parameters that are given as one object, for fields that each have a place: the call's parameters
-- are made without an exception, and hold in each slot, under each name, exactly the last of the
-- object's entries whose place it is. An entry's place is its field's slot and name; without a field
-- it is the slot that its prefix says, under the rest of the key, or else the first slot that takes
-- extra entries; and an entry without a place is sent nowhere.
pub build_client_params-places :
    (allowed : List (Slot × Bool)) (fs : List Field) (ms : Members) (slot : Slot) (name : Text)
    → all is_placed fs ≡ true
    → (p : Params) × (build_client_params (object ms ∷ []) (fields allowed fs ∷ []) ≡ some p)
      × (value_in (slot_of slot p) name
          ≡ last_placed (add_fields fs []) allowed slot name (entries ms) none)
unfolding build_client_params write_args write_arg build_key_map AllPlaces entries_of_arg
    write_entries-last_placed
build_client_params-places allowed fs ms slot name h =
    let places = add_fields-AllPlaces fs [] h empty-AllPlaces in
    let (q, e, values) =
      write_entries-last_placed (add_fields fs []) allowed (entries ms) empty_params places
        empty-IsRecords in
    (
      strip_empty_slots q,
      rw e refl,
      value_in-strip_empty_slots slot q name
          ∙ values slot name
          ∙ ap (last_placed (add_fields fs []) allowed slot name (entries ms))
              (empty-values slot name),
    )
