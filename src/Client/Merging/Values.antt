-- ===== src/Client/Merging/Values.antt =====
-- The value that each name has in merged headers.
use integr8s_code.Base.{
  ◌≡◌, refl, ap, ◌∙◌, inl, inr, Bool-cases, Option, none, some, List, [], ◌∷◌, if◌then◌else◌, Text,
  text_eq, arith, lookup,
}
use integr8s_code.Headers.{
  Headers, lower_text, get, append, joined, get-same, get-set, get-delete, get-append,
}
use integr8s_code.Client.Merging.{
  HeaderValue, null, undefined, array, object, primitive, HeadersInit, append_all, merge_value,
  merge_entries, entries_of, merge_into, merge_headers,
}

-- The value of one name: what it was, and then what is given for it.
abbrev pub join_all : List Text → Option Text → Option Text
join_all [] o = o
join_all (v ∷ vs) o = join_all vs (some (joined o v))

abbrev pub new_value : HeaderValue → Option Text → Option Text
new_value null o = none
new_value undefined o = o
new_value (array vs) o = join_all vs o
new_value (object json) o = some json
new_value (primitive v) o = some v

-- The entries for a name, in any case of its letters.
abbrev pub value_in : (name : Text) → List (Text × HeaderValue) → Option Text → Option Text
value_in name [] o = o
value_in name ((key, v) ∷ es) o =
    value_in name es (if text_eq (lower_text key) (lower_text name) then new_value v o else o)

abbrev pub value_of : (name : Text) → List HeadersInit → Option Text → Option Text
value_of name [] o = o
value_of name (i ∷ is) o = value_of name is (value_in name (entries_of i) o)

get-append_all :
    (key name : Text) (vs : List Text) (h : Headers)
    → get name (append_all key vs h) ≡ (
        if text_eq (lower_text key) (lower_text name) then join_all vs (get name h) else get name h)
unfolding append_all
get-append_all key name [] h = ground arith
get-append_all key name (v ∷ vs) h =
    get-append_all key name vs (append key v h)
    ∙ elim (Bool-cases (text_eq (lower_text key) (lower_text name))) [
      | inl e ↦ rw (e, get-append key name v h, e, get-same key name h e) refl
      | inr e ↦ rw (e, get-append key name v h, e) refl
    ]

get-merge_value :
    (key name : Text) (v : HeaderValue) (h : Headers)
    → get name (merge_value key v h) ≡ (
        if text_eq (lower_text key) (lower_text name) then new_value v (get name h) else get name h)
unfolding merge_value
get-merge_value key name null h = get-delete key name h
get-merge_value key name undefined h = ground arith
get-merge_value key name (array vs) h = get-append_all key name vs h
get-merge_value key name (object json) h = get-set key name json h
get-merge_value key name (primitive v) h = get-set key name v h

get-merge_entries :
    (name : Text) (es : List (Text × HeaderValue)) (h : Headers)
    → get name (merge_entries es h) ≡ value_in name es (get name h)
unfolding merge_entries
get-merge_entries name [] h = refl
get-merge_entries name ((key, v) ∷ es) h =
    get-merge_entries name es (merge_value key v h)
    ∙ ap (value_in name es) (get-merge_value key name v h)

get-merge_into :
    (name : Text) (h : Headers) (is : List HeadersInit)
    → get name (merge_into h is) ≡ value_of name is (get name h)
unfolding merge_into
get-merge_into name h [] = refl
get-merge_into name h (i ∷ is) =
    get-merge_into name (merge_entries (entries_of i) h) is
    ∙ ap (value_of name is) (get-merge_entries name (entries_of i) h)

-- Merged headers hold for each name what its own entries give, from the first source to the last and
-- whatever the case of their letters: a text replaces, an array is appended, `null` takes the name
-- out, `undefined` leaves it; no entry of another name matters.
pub get-merge_headers :
    (name : Text) (is : List HeadersInit) → get name (merge_headers is) ≡ value_of name is none
unfolding merge_headers get lookup
get-merge_headers name is = get-merge_into name [] is
