-- ===== src/Client/Path.antt =====
-- How the path of an endpoint is filled in: defaultPathSerializer of
-- frontend/src/lib/api/core/utils.gen.ts. `none` is an exception.
pub mod Filling
use integr8s_code.Base.{
  ℕ, Bool, true, false, Option, none, some, List, [], ◌∷◌, ◌++◌, map, if◌then◌else◌, ◌==◌, Text,
  codes, is_empty, ◌>>=◌, strip_prefix, last_or, lookup,
}
use integr8s_code.Client.Values.{
  Value, undefined, date, search_params, array, object, elems, is_nullish, as_text,
}
use integr8s_code.Client.Percent.{encode_uri_component}
use integr8s_code.Client.Parameters.{
  Style, label, matrix, simple, SerializerOptions, serialize_array_param, serialize_object_param,
  serialize_primitive_param,
}

abbrev pub snoc : Text → ℕ → Text
snoc s c = s ++ c ∷ []

-- What stands behind the last `{`, if there is one and no brace behind it; and the matches of
-- `/\{[^{}]+\}/g`, each without its braces.
pub matches_from : Option Text → Text → List Text
matches_from seen [] = []
matches_from none (c ∷ s) =
    let opened = matches_from (some []) s in
    let rest = matches_from none s in if c == b'{' then opened else rest
matches_from (some name) (c ∷ s) =
    let opened = matches_from (some []) s in
    let closed = matches_from none s in
    let rest = matches_from (some (snoc name c)) s in
    if c == b'{'
    then opened
    else if c == b'}'
    then (if is_empty name then closed else name ∷ closed)
    else rest

-- `url.match(PATH_PARAM_RE)`
unfoldable pub path_params : Text → List Text
unfolding matches_from
path_params url = matches_from none url

-- The patterns that `replace` knows in a text to put in: `$$`, `$&`, and what is before or behind.
unfoldable pub expand : (before found behind : Text) → Text → Text
expand before found behind [] = []
expand before found behind (c ∷ []) = c ∷ []
expand before found behind (c ∷ d ∷ s) =
    let after = expand before found behind s in
    let rest = expand before found behind (d ∷ s) in
    if c == b'$'
    then (if d == b'$'
        then b'$' ∷ after
        else if d == b'&'
        then found ++ after
        else if d == 96
        then before ++ after
        else if d == 39
        then behind ++ after
        else c ∷ rest)
    else c ∷ rest

-- The text before the first place where `part` stands, and the text behind it.
abbrev pub cons_before : ℕ → Option (Text × Text) → Option (Text × Text)
cons_before c none = none
cons_before c (some (before, behind)) = some (c ∷ before, behind)

unfoldable pub find : Text → (part : Text) → Option (Text × Text)
unfolding strip_prefix
find [] part = elim (strip_prefix part []) [ some behind ↦ some ([], behind) | none ↦ none ]
find (c ∷ s) part =
    let later = cons_before c (find s part) in
    elim (strip_prefix part (c ∷ s)) [ some behind ↦ some ([], behind) | none ↦ later ]

-- `url.replace(part, text)`
unfoldable pub replace_first : Text → (part text : Text) → Text
unfolding find expand
replace_first url part text = elim (find url part) [
  | some (before, behind) ↦ before ++ (expand before part behind text ++ behind)
  | none ↦ url
]

-- What stands between the braces of a match, taken apart.
pub record Placeholder : Type 0 where
  pub explode : Bool
  pub style : Style
  pub name : Text

-- `name.substring(0, name.length - 1)`
abbrev pub drop_last : Text → Text
drop_last [] = []
drop_last (c ∷ []) = []
drop_last (c ∷ d ∷ s) = c ∷ drop_last (d ∷ s)

pub styled : Bool → Text → Placeholder
styled explode [] = record { explode = explode; style = simple; name = [] }
styled explode (c ∷ s) =
    if c == b'.'
    then record { explode = explode; style = label; name = s }
    else if c == b';'
    then record { explode = explode; style = matrix; name = s }
    else record { explode = explode; style = simple; name = c ∷ s }

unfoldable pub placeholder : Text → Placeholder
unfolding styled last_or
placeholder inner =
    if last_or 0 inner == b'*' then styled true (drop_last inner) else styled false inner

abbrev pub options_of : Placeholder → SerializerOptions
options_of p = record { allow_reserved = false; explode = p.explode; style = p.style }

-- A value that is no object.
pub primitive_param : Placeholder → Value → Option Text
unfolding serialize_primitive_param encode_uri_component as_text
primitive_param p v = elim (p.style) [
  | matrix ↦ do t ← serialize_primitive_param false p.name v; some (b';' ∷ t)
  | label ↦ encode_uri_component (b'.' ∷ as_text v)
  | _ ↦ encode_uri_component (as_text v)
]

-- What is put in for a placeholder.
unfoldable pub path_param : Placeholder → Value → Option Text
unfolding serialize_array_param serialize_object_param primitive_param
path_param p (array vs) = serialize_array_param (options_of p) p.name (elems vs)
path_param p (object ms) = serialize_object_param (options_of p) p.name (object ms) true
path_param p (date iso shown) = serialize_object_param (options_of p) p.name (date iso shown) true
path_param p (search_params shown pairs) =
    serialize_object_param (options_of p) p.name (search_params shown pairs) true
path_param p v = primitive_param p v

-- `path[name]`
abbrev pub value_in : List (Text × Value) → Text → Value
value_in path name = elim (lookup name path) [ some v ↦ v | none ↦ undefined ]

abbrev pub braced : Text → Text
braced inner = b'{' ∷ (inner ++ codes "}")

-- One round of the `for`.
pub replace_match : List (Text × Value) → (inner url : Text) → Option Text
unfolding path_param placeholder replace_first lookup
replace_match path inner url =
    let p = placeholder inner in
    let v = value_in path p.name in
    if is_nullish v
    then some url
    else path_param p v >>= λ t. some (replace_first url (braced inner) t)

unfoldable pub replace_matches :
    List (Text × Value) → (inners : List Text) → (url : Text) → Option Text
unfolding replace_match
replace_matches path [] url = some url
replace_matches path (inner ∷ inners) url =
    replace_match path inner url >>= λ replaced. replace_matches path inners replaced

unfoldable pub default_path_serializer : List (Text × Value) → (url : Text) → Option Text
unfolding path_params replace_matches
default_path_serializer path url = replace_matches path (path_params url) url
