-- ===== src/Client/Flat.antt =====
-- Parameters that are given side by side, frontend/src/lib/api/core/params.gen.ts: where each of them
-- goes. A key is no array index, so that a record keeps its keys in the order they were written.
pub mod Writing
pub mod Placing
mod Examples
use integr8s_code.Base.{
  ℕ, suc, ◌>>=◌, decimal_text, not, map, ◌&&◌, Bool, true, false, ◌||◌, Option, none, some, List,
  [], ◌∷◌, if◌then◌else◌, Text, codes, is_empty, insert, lookup, strip_prefix,
}
use integr8s_code.Client.Values.{
  Value, undefined, null, object, string, array, callable, Members, entries, elems, is_object,
  is_nullish,
}

pub data Slot : Type 0 where
  body headers path query : Slot

-- A field that has a place, with the name it has there; or one that is a slot as a whole.
pub data Field : Type 0 where
  placed : (slot : Slot) → (key map : Option Text) → Field
  aliased : (key : Text) → (slot : Slot) → Field

-- `allow_extra` are the entries of `allowExtra`, in their order.
pub data FieldConfig : Type 0 where
  field : Field → FieldConfig
  fields : (allow_extra : List (Slot × Bool)) → (args : List Field) → FieldConfig

pub data Target : Type 0 where
  place : (slot : Slot) → (map : Option Text) → Target
  whole : (slot : Slot) → Target

abbrev pub KeyMap : Type 0
KeyMap = List (Text × Target)

unfoldable pub add_field : Field → KeyMap → KeyMap
unfolding insert
add_field (placed slot none name) m = m
add_field (placed slot (some []) name) m = m
add_field (placed slot (some (c ∷ key)) name) m = insert (c ∷ key) (place slot name) m
add_field (aliased key slot) m = insert key (whole slot) m

unfoldable pub add_fields : List Field → KeyMap → KeyMap
unfolding add_field
add_fields [] m = m
add_fields (f ∷ fs) m = add_fields fs (add_field f m)

-- `buildKeyMap`
unfoldable pub build_key_map : List FieldConfig → KeyMap → KeyMap
unfolding add_fields
build_key_map [] m = m
build_key_map (field f ∷ configs) m = build_key_map configs (add_field f m)
build_key_map (fields extra args ∷ configs) m = build_key_map configs (add_fields args m)

abbrev is_array : Value → Bool
is_array (array _) = true
is_array _ = false

abbrev is_nil : {A : Type 0} → List A → Bool
is_nil [] = true
is_nil (_ ∷ _) = false

-- What a slot holds: nothing, a record, or another value that it was set to as a whole.
pub data Held : Type 0 where
  missing : Held
  entries_held : List (Text × Value) → Held
  other : Value → Held

pub record Params : Type 0 where
  pub body : Held
  pub headers : Held
  pub path : Held
  pub query : Held

abbrev pub empty_params : Params
empty_params = record {
  body = missing;
  headers = entries_held [];
  path = entries_held [];
  query = entries_held [];
}

abbrev pub held : Value → Held
held undefined = missing
held (object ms) = entries_held (entries ms)
held v = other v

unfoldable pub slot_of : Slot → Params → Held
slot_of body p = p.body
slot_of headers p = p.headers
slot_of path p = p.path
slot_of query p = p.query

unfoldable pub set_slot : Slot → Held → Params → Params
set_slot body h p = record p { body = h }
set_slot headers h p = record p { headers = h }
set_slot path h p = record p { path = h }
set_slot query h p = record p { query = h }

abbrev is_callable : Value → Bool
is_callable (callable _) = true
is_callable _ = false

-- `record[key] = value`, where a primitive throws; what an array or a date gets besides its own
-- content is left out.
unfoldable pub write_held : (key : Text) → Value → Held → Option Held
unfolding insert
write_held key v missing = some (entries_held ((key, v) ∷ []))
write_held key v (entries_held es) = some (entries_held (insert key v es))
write_held key v (other w) = if is_object w || is_callable w then some (other w) else none

unfoldable pub write_slot : Slot → (key : Text) → Value → Params → Option Params
unfolding write_held slot_of set_slot
write_slot slot key v p = do h ← write_held key v (slot_of slot p); some (set_slot slot h p)

abbrev name_or : (map : Option Text) → (key : Text) → Text
name_or none key = key
name_or (some []) key = key
name_or (some (c ∷ name)) key = c ∷ name

-- A field that is in the key map.
unfoldable pub write_target : Target → (key : Text) → Value → Params → Option Params
unfolding write_slot set_slot
write_target (place slot name) key v p = write_slot slot (name_or name key) v p
write_target (whole slot) key v p = some (set_slot slot (held v) p)

abbrev extra_prefixes : List (Text × Slot)
extra_prefixes =
    (codes "$body_", body)
    ∷ (codes "$headers_", headers)
    ∷ (codes "$path_", path)
    ∷ (codes "$query_", query)
    ∷ []

-- The slot of a key with one of the prefixes, and the key without it.
unfoldable pub prefixed : Text → List (Text × Slot) → Option (Slot × Text)
unfolding strip_prefix
prefixed key [] = none
prefixed key ((prefix, slot) ∷ prefixes) = elim (strip_prefix prefix key) [
  | some rest ↦ some (slot, rest)
  | none ↦ prefixed key prefixes
]

unfoldable pub first_allowed : List (Slot × Bool) → Option Slot
first_allowed [] = none
first_allowed ((slot, true) ∷ allowed) = some slot
first_allowed ((slot, false) ∷ allowed) = first_allowed allowed

-- Where an entry goes that no field names.
unfoldable pub extra_place : List (Slot × Bool) → (key : Text) → Option (Slot × Text)
unfolding prefixed first_allowed
extra_place allowed key = elim (prefixed key extra_prefixes) [
  | some p ↦ some p
  | none ↦ elim (first_allowed allowed) [ some slot ↦ some (slot, key) | none ↦ none ]
]

unfoldable pub write_extra : Option (Slot × Text) → Value → Params → Option Params
unfolding write_slot
write_extra none v p = some p
write_extra (some (slot, key)) v p = write_slot slot key v p

unfoldable pub write_entry :
    KeyMap → List (Slot × Bool) → (key : Text) → Value → Params → Option Params
unfolding write_target write_extra extra_place lookup
write_entry m allowed key v p = elim (lookup key m) [
  | some target ↦ write_target target key v p
  | none ↦ write_extra (extra_place allowed key) v p
]

unfoldable pub write_entries :
    KeyMap → List (Slot × Bool) → List (Text × Value) → Params → Option Params
unfolding write_entry
write_entries m allowed [] p = some p
write_entries m allowed ((key, v) ∷ es) p =
    write_entry m allowed key v p >>= write_entries m allowed es

-- `Object.entries(arg ?? {})`: of an array and of a text with the indices as keys.
indexed : ℕ → List Value → List (Text × Value)
indexed i [] = []
indexed i (v ∷ vs) = (decimal_text i, v) ∷ indexed (suc i) vs

unfoldable pub entries_of_arg : Value → List (Text × Value)
unfolding indexed
entries_of_arg (object ms) = entries ms
entries_of_arg (array vs) = indexed 0 (elems vs)
entries_of_arg (string s) = indexed 0 (map (λ c. string (c ∷ [])) s)
entries_of_arg _ = []

-- A field with a key stands for its argument. The key map has the key; if a later configuration made
-- a whole slot of it, the argument is dropped.
write_placed : Option Target → (key : Text) → Value → Params → Option Params
unfolding write_slot
write_placed (some (place slot name)) key v p = write_slot slot (name_or name key) v p
write_placed _ key v p = some p

unfoldable pub write_arg : KeyMap → FieldConfig → Value → Params → Option Params
unfolding write_placed write_entries lookup entries_of_arg
write_arg m (field (placed slot (some (c ∷ key)) name)) arg p =
    write_placed (lookup (c ∷ key) m) (c ∷ key) arg p
write_arg m (field (placed slot key name)) arg p = some (record p { body = held arg })
write_arg m (field (aliased key slot)) arg p = write_entries m [] (entries_of_arg arg) p
write_arg m (fields allowed args) arg p = write_entries m allowed (entries_of_arg arg) p

-- The loop over the arguments: each has its configuration, and those behind the last one share it.
unfoldable pub write_args : KeyMap → List Value → List FieldConfig → Params → Option Params
unfolding write_arg
write_args m [] configs p = some p
write_args m (arg ∷ args) [] p = some p
write_args m (arg ∷ args) (config ∷ []) p =
    write_arg m config arg p >>= write_args m args (config ∷ [])
write_args m (arg ∷ args) (config ∷ next ∷ configs) p =
    write_arg m config arg p >>= write_args m args (next ∷ configs)

-- `stripEmptySlots`: dates and the like have no keys either.
unfoldable pub is_bare : Held → Bool
is_bare missing = false
is_bare (entries_held es) = is_nil es
is_bare (other w) = is_object w && not (is_array w)

unfoldable pub stripped : Held → Held
unfolding is_bare
stripped h = if is_bare h then missing else h

unfoldable pub strip_empty_slots : Params → Params
unfolding stripped
strip_empty_slots p = record p {
  headers = stripped p.headers;
  path = stripped p.path;
  query = stripped p.query;
}

-- `none` is an exception.
unfoldable pub build_client_params : List Value → List FieldConfig → Option Params
unfolding build_key_map write_args strip_empty_slots
build_client_params args configs = do
  p ← write_args (build_key_map configs []) args configs empty_params
  some (strip_empty_slots p)
