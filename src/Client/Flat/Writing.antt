-- ===== src/Client/Flat/Writing.antt =====
-- What a slot holds after a value was written to a place.
use integr8s_code.Base.{
  ℕ, ◌==◌, get_elem?, ◌≡◌, refl, ap, sym, ◌∙◌, inl, inr, Bool, true, false, Bool-cases, ◌&&◌,
  Option, none, some, List, [], ◌∷◌, if◌then◌else◌, Text, text_eq, insert, lookup, lookup-insert,
  arith,
}
use integr8s_code.Client.Values.{Value}
use integr8s_code.Client.Flat.{
  Slot, body, headers, path, query, Target, place, whole, Held, missing, entries_held, other,
  Params, slot_of, set_slot, write_held, write_slot, name_or, extra_place, write_extra,
}

abbrev slots : List Slot
slots = body ∷ headers ∷ path ∷ query ∷ []

abbrev index_of : Slot → ℕ
index_of body = 0
index_of headers = 1
index_of path = 2
index_of query = 3

abbrev pub slot_eq : Slot → Slot → Bool
slot_eq s t = index_of s == index_of t

slot_at-index_of : (s : Slot) → get_elem? slots (index_of s) ≡ some s
slot_at-index_of body = refl
slot_at-index_of headers = refl
slot_at-index_of path = refl
slot_at-index_of query = refl

slot_eq→eq : (s t : Slot) → slot_eq s t ≡ true → s ≡ t
slot_eq→eq s t h =
    let same : index_of s ≡ index_of t = ground arith in
    let e = sym (slot_at-index_of s) ∙ ap (get_elem? slots) same ∙ slot_at-index_of t in cc

-- The place of a key: its field's, or the one for keys without a field.
abbrev pub place_of : List (Slot × Bool) → Option Target → (key : Text) → Option (Slot × Text)
place_of allowed (some (place slot name)) key = some (slot, name_or name key)
place_of allowed (some (whole slot)) key = none
place_of allowed none key = extra_place allowed key

abbrev pub is_place : Option (Slot × Text) → (slot : Slot) → (name : Text) → Bool
is_place none slot name = false
is_place (some (s, n)) slot name = slot_eq s slot && text_eq n name

-- What a slot holds under a name.
abbrev pub value_in : Held → (name : Text) → Option Value
value_in missing name = none
value_in (entries_held es) name = lookup name es
value_in (other v) name = none

abbrev pub is_record : Held → Bool
is_record (other v) = false
is_record _ = true

abbrev pub IsRecords : Params → Type 0
IsRecords p = (slot : Slot) → is_record (slot_of slot p) ≡ true

slot_of-set_slot :
    (s t : Slot) (h : Held) (p : Params)
    → slot_of t (set_slot s h p) ≡ (if slot_eq s t then h else slot_of t p)
unfolding slot_of set_slot
slot_of-set_slot body body h p = refl
slot_of-set_slot body headers h p = refl
slot_of-set_slot body path h p = refl
slot_of-set_slot body query h p = refl
slot_of-set_slot headers body h p = refl
slot_of-set_slot headers headers h p = refl
slot_of-set_slot headers path h p = refl
slot_of-set_slot headers query h p = refl
slot_of-set_slot path body h p = refl
slot_of-set_slot path headers h p = refl
slot_of-set_slot path path h p = refl
slot_of-set_slot path query h p = refl
slot_of-set_slot query body h p = refl
slot_of-set_slot query headers h p = refl
slot_of-set_slot query path h p = refl
slot_of-set_slot query query h p = refl

-- Written to `p` at a place, which may be none, it is `q`.
pub record IsWritten (at' : Option (Slot × Text)) (v : Value) (p q : Params) : Type 0 where
  pub records : IsRecords q
  pub values :
      (slot : Slot) (name : Text)
      → value_in (slot_of slot q) name
        ≡ (if is_place at' slot name then some v else value_in (slot_of slot p) name)

write_held-value_in :
    (key : Text) (v : Value) (h : Held)
    → is_record h ≡ true
    → (k : Held) × (write_held key v h ≡ some k)
      × (is_record k ≡ true)
      × ((name : Text) → value_in k name ≡ (if text_eq key name then some v else value_in h name))
unfolding write_held lookup
write_held-value_in key v missing r = (entries_held ((key, v) ∷ []), refl, refl, λ name. refl)
write_held-value_in key v (entries_held es) r =
    (entries_held (insert key v es), refl, refl, λ name. lookup-insert key name v es)
write_held-value_in key v (other w) r = absurd (cc)

pub write_slot-IsWritten :
    (s : Slot) (key : Text) (v : Value) (p : Params)
    → IsRecords p
    → (q : Params) × (write_slot s key v p ≡ some q) × IsWritten (some (s, key)) v p q
unfolding write_slot
write_slot-IsWritten s key v p r =
    let (k, e, rk, vk) = write_held-value_in key v (slot_of s p) (r s) in
    (
      set_slot s k p,
      rw e refl,
      record {
        records = λ t. elim (Bool-cases (slot_eq s t)) [
          | inl y ↦ rw (slot_of-set_slot s t k p, y) rk
          | inr n ↦ rw (slot_of-set_slot s t k p, n) (r t)
        ];
        values = λ t name. elim (Bool-cases (slot_eq s t)) [
          | inl y ↦
              rw (slot_of-set_slot s t k p, y, sym (ap (λ u. slot_of u p) (slot_eq→eq s t y)))
                (vk name)
          | inr n ↦ rw (slot_of-set_slot s t k p, n) refl
        ];
      },
    )

pub write_extra-IsWritten :
    (at' : Option (Slot × Text)) (v : Value) (p : Params)
    → IsRecords p
    → (q : Params) × (write_extra at' v p ≡ some q) × IsWritten at' v p q
unfolding write_extra
write_extra-IsWritten none v p r = (p, refl, record { records = r; values = λ slot name. refl })
write_extra-IsWritten (some (slot, key)) v p r = write_slot-IsWritten slot key v p r
