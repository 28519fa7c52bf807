-- ===== src/Client/Url.antt =====
-- The URL and the body of a request: getUrl and getValidRequestBody of
-- frontend/src/lib/api/core/utils.gen.ts, and the query serializer and buildUrl of
-- frontend/src/lib/api/client/utils.gen.ts. `none` is an exception.
use integr8s_code.Base.{
  Bool, true, false, Option, none, some, List, [], ◌∷◌, ◌++◌, if◌then◌else◌, ◌==◌, Text, codes,
  ◌>>=◌, join, lookup,
}
use integr8s_code.Client.Values.{Value, array, elems, is_nullish, is_object}
use integr8s_code.Client.Parameters.{
  Style, form, deep_object, SerializerOptions, serialize_array_param, serialize_object_param,
  serialize_primitive_param,
}
use integr8s_code.Client.Path.{default_path_serializer}

-- `QuerySerializerOptionsObject`: what is not given is `none`.
pub record PartialOptions : Type 0 where
  pub explode : Option Bool
  pub style : Option Style

pub record QueryOptions : Type 0 where
  pub allow_reserved : Bool
  pub array : PartialOptions
  pub object : PartialOptions

pub record QuerySerializerOptions : Type 0 where
  pub common : QueryOptions
  pub parameters : List (Text × QueryOptions)

abbrev pub given {ℓ} : {A : Type ℓ} → Option A → A → A
given (some a) b = a
given none b = b

-- The defaults with `...options.array` or `...options.object` over them.
abbrev pub overridden : Bool → Style → PartialOptions → SerializerOptions
overridden allow_reserved style o = record {
  allow_reserved = allow_reserved;
  explode = given o.explode true;
  style = given o.style style;
}

-- A query parameter that is not null or undefined.
unfoldable pub query_param : QueryOptions → (name : Text) → Value → Option Text
unfolding serialize_array_param serialize_object_param serialize_primitive_param
query_param o name (array vs) =
    serialize_array_param (overridden o.allow_reserved form o.array) name (elems vs)
query_param o name v =
    if is_object v
    then serialize_object_param (overridden o.allow_reserved deep_object o.object) name v false
    else serialize_primitive_param o.allow_reserved name v

-- `parameters[name] || args`
abbrev pub options_for : QuerySerializerOptions → Text → QueryOptions
options_for o name = given (lookup name o.parameters) o.common

-- `if (serialized) search.push(serialized)`
abbrev pub push_if : Text → List Text → List Text
push_if [] search = search
push_if (c ∷ s) search = (c ∷ s) ∷ search

unfoldable pub search_parts : QuerySerializerOptions → List (Text × Value) → Option (List Text)
unfolding query_param lookup
search_parts o [] = some []
search_parts o ((name, v) ∷ query) =
    if is_nullish v
    then search_parts o query
    else query_param (options_for o name) name v >>= λ s.
        search_parts o query >>= λ search. some (push_if s search)

-- `createQuerySerializer`, applied to the query.
unfoldable pub query_serializer : QuerySerializerOptions → List (Text × Value) → Option Text
unfolding search_parts
query_serializer o query = search_parts o query >>= λ search. some (join (codes "&") search)

pub record UrlOptions : Type 0 where
  pub base_url : Option Text
  pub path : Option (List (Text × Value))
  pub query : Option (List (Text × Value))
  pub url : Text

with_slash : Text → Text
with_slash [] = codes "/"
with_slash (c ∷ s) = if c == b'/' then c ∷ s else b'/' ∷ c ∷ s

without_mark : Text → Text
without_mark [] = []
without_mark (c ∷ s) = if c == b'?' then s else c ∷ s

with_path : Option (List (Text × Value)) → Text → Option Text
unfolding default_path_serializer
with_path none url = some url
with_path (some path) url = default_path_serializer path url

with_search : Text → Text → Text
with_search url [] = url
with_search url (c ∷ s) = url ++ b'?' ∷ c ∷ s

search_of : (List (Text × Value) → Option Text) → Option (List (Text × Value)) → Option Text
search_of serializer none = some []
search_of serializer (some query) = serializer query

unfoldable pub get_url :
    (query_serializer : List (Text × Value) → Option Text) → UrlOptions → Option Text
unfolding with_slash without_mark with_path with_search search_of
get_url serializer o = with_path o.path (given o.base_url [] ++ with_slash o.url) >>= λ url.
    search_of serializer o.query >>= λ search. some (with_search url (without_mark search))

-- A query serializer is a function or the options of one.
pub data QuerySerializer : Type 0 where
  function : (List (Text × Value) → Option Text) → QuerySerializer
  options : QuerySerializerOptions → QuerySerializer

serializer_of : QuerySerializer → List (Text × Value) → Option Text
unfolding query_serializer
serializer_of (function f) query = f query
serializer_of (options o) query = query_serializer o query

unfoldable pub build_url : QuerySerializer → UrlOptions → Option Text
unfolding get_url serializer_of
build_url serializer o = get_url (serializer_of serializer) o
