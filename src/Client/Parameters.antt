-- ===== src/Client/Parameters.antt =====
-- How one parameter is written: frontend/src/lib/api/core/pathSerializer.gen.ts. `none` is an
-- exception.
use integr8s_code.Base.{
  Bool, true, false, not, Option, none, some, List, [], ◌∷◌, ◌++◌, if◌then◌else◌, Text, codes,
  ◌>>=◌, traverse, join,
}
use integr8s_code.Client.Values.{Value, date, object, entries, is_nullish, is_object, as_text}
use integr8s_code.Client.Percent.{encode_uri_component}

pub data Style : Type 0 where
  form space_delimited pipe_delimited deep_object label matrix simple : Style

unfoldable pub separator_array_explode : Style → Text
separator_array_explode label = codes "."
separator_array_explode matrix = codes ";"
separator_array_explode simple = codes ","
separator_array_explode _ = codes "&"

unfoldable pub separator_array_no_explode : Style → Text
separator_array_no_explode form = codes ","
separator_array_no_explode pipe_delimited = codes "|"
separator_array_no_explode space_delimited = codes "%20"
separator_array_no_explode _ = codes ","

unfoldable pub separator_object_explode : Style → Text
separator_object_explode label = codes "."
separator_object_explode matrix = codes ";"
separator_object_explode simple = codes ","
separator_object_explode _ = codes "&"

-- `SerializerOptions` with `allowReserved`.
pub record SerializerOptions : Type 0 where
  pub allow_reserved : Bool
  pub explode : Bool
  pub style : Style

-- `allowReserved ? v : encodeURIComponent(v)`, as text.
abbrev pub encode_unless : Bool → Value → Option Text
encode_unless true v = some (as_text v)
encode_unless false v = encode_uri_component (as_text v)

-- The same where `join` makes the text: it writes null and undefined as nothing.
abbrev pub encode_element : Bool → Value → Option Text
encode_element true v = some (if is_nullish v then [] else as_text v)
encode_element false v = encode_uri_component (as_text v)

unfoldable pub serialize_primitive_param :
    (allow_reserved : Bool) → (name : Text) → Value → Option Text
unfolding encode_uri_component as_text
serialize_primitive_param allow_reserved name v =
    if is_nullish v
    then some []
    else if is_object v
    then none
    else do t ← encode_unless allow_reserved v; some (name ++ b'=' ∷ t)

-- The result of the `switch` over the style of an array that is not exploded.
abbrev pub array_prefix : Style → (name : Text) → Text
array_prefix label name = codes "."
array_prefix matrix name = b';' ∷ name ++ codes "="
array_prefix simple name = []
array_prefix _ name = name ++ codes "="

-- Styles that put their separator in front, too.
abbrev pub leading : Style → Text → Text
leading label separator = separator
leading matrix separator = separator
leading _ separator = []

-- An element of an array that is exploded.
abbrev pub array_element : SerializerOptions → (name : Text) → Value → Option Text
unfolding serialize_primitive_param
array_element o name v = elim (o.style) [
  | label ↦ encode_element o.allow_reserved v
  | simple ↦ encode_element o.allow_reserved v
  | _ ↦ serialize_primitive_param o.allow_reserved name v
]

exploded_array : SerializerOptions → (name : Text) → List Value → Option Text
unfolding serialize_primitive_param separator_array_explode
exploded_array o name values = do
  parts ← traverse (array_element o name) values
  let separator = separator_array_explode o.style
  some (leading o.style separator ++ join separator parts)

joined_array : SerializerOptions → (name : Text) → List Value → Option Text
unfolding separator_array_no_explode
joined_array o name values = do
  parts ← traverse (encode_element o.allow_reserved) values
  some (array_prefix o.style name ++ join (separator_array_no_explode o.style) parts)

unfoldable pub serialize_array_param : SerializerOptions → (name : Text) → List Value → Option Text
unfolding exploded_array joined_array
serialize_array_param o name values =
    if o.explode then exploded_array o name values else joined_array o name values

-- The `switch` over the style of an object that is not exploded.
abbrev pub object_prefix : Style → (name : Text) → Text
object_prefix form name = name ++ codes "="
object_prefix label name = codes "."
object_prefix matrix name = b';' ∷ name ++ codes "="
object_prefix _ name = []

-- `style !== 'deepObject' && !explode`
abbrev pub is_flat : SerializerOptions → Bool
is_flat o = elim (o.style) [ deep_object ↦ false | _ ↦ not o.explode ]

-- The keys and values in turn; a key is not encoded.
abbrev pub flat_values : Bool → List (Text × Value) → Option (List Text)
flat_values allow_reserved [] = some []
flat_values allow_reserved ((key, v) ∷ es) = do
  t ← encode_element allow_reserved v
  rest ← flat_values allow_reserved es
  some (key ∷ t ∷ rest)

flat_object : SerializerOptions → (name : Text) → List (Text × Value) → Option Text
flat_object o name es = do
  values ← flat_values o.allow_reserved es
  some (object_prefix o.style name ++ join (codes ",") values)

-- The name under which a member of an exploded object goes.
abbrev pub member_name : Style → (name key : Text) → Text
member_name deep_object name key = name ++ (b'[' ∷ (key ++ codes "]"))
member_name _ name key = key

exploded_object : SerializerOptions → (name : Text) → List (Text × Value) → Option Text
unfolding serialize_primitive_param separator_object_explode
exploded_object o name es = do
  parts ←
      traverse (λ e. serialize_primitive_param o.allow_reserved (member_name o.style name e.0) e.1)
        es
  let separator = separator_object_explode o.style
  some (leading o.style separator ++ join separator parts)

serialize_entries : SerializerOptions → (name : Text) → List (Text × Value) → Option Text
unfolding flat_object exploded_object
serialize_entries o name es = if is_flat o then flat_object o name es else exploded_object o name es

-- `Object.entries(value)` of an object that is no date: an array's are its elements by their index,
-- which no caller has; `URLSearchParams` has none.
abbrev pub object_entries : Value → List (Text × Value)
object_entries (object ms) = entries ms
object_entries _ = []

unfoldable pub serialize_object_param :
    SerializerOptions → (name : Text) → Value → (value_only : Bool) → Option Text
unfolding serialize_entries
serialize_object_param o name (date iso _) value_only =
    some (if value_only then iso else name ++ b'=' ∷ iso)
serialize_object_param o name v value_only = serialize_entries o name (object_entries v)
