-- ===== src/Client/Configuration.antt =====
-- The configuration of a client: mergeConfigs and createConfig of
-- frontend/src/lib/api/client/utils.gen.ts. A setting that is not given is `none`; one that is given
-- as `undefined` is left out. `E` is what a step can throw, and `D` what
-- a response holds.
use integr8s_code.Base.{
  Bool, true, false, Option, none, some, List, [], ◌∷◌, if◌then◌else◌, ◌==◌, Text, codes, last_or,
}
use integr8s_code.Client.Values.{Value}
use integr8s_code.Client.Results.{Result}
use integr8s_code.Client.ParseAs.{ParseAs, auto}
use integr8s_code.Client.Auth.{Callback}
use integr8s_code.Client.Parameters.{form, deep_object}
use integr8s_code.Client.Url.{QuerySerializer, options, QueryOptions}
use integr8s_code.Client.Path.{drop_last}
use integr8s_code.Client.Merging.{HeadersInit, headers, record_of, primitive, merge_headers}

pub data ResponseStyle : Type 0 where
  data_style fields_style : ResponseStyle

-- `bodySerializer` may be null, which is `no_serializer`.
pub data BodySerializer (E : Type 0) : Type 0 where
  no_serializer : BodySerializer E
  serializer : (Value → Result E Value) → BodySerializer E

-- What a request validator looks into of the options.
pub record RequestData : Type 0 where
  pub body : Value
  pub path : Option (List (Text × Value))
  pub query : Option (List (Text × Value))

pub record Config (E D : Type 0) : Type 0 where
  pub base_url : Option Text
  pub headers : HeadersInit
  pub auth : Option Callback
  pub body_serializer : Option (BodySerializer E)
  pub query_serializer : Option QuerySerializer
  pub request_validator : Option (RequestData → Option E)
  pub response_validator : Option (D → Option E)
  pub response_transformer : Option (D → Result E D)
  pub parse_as : Option ParseAs
  pub response_style : Option ResponseStyle
  pub throw_on_error : Option Bool

-- `{ ...a, ...b }` at one setting.
abbrev pub over {ℓ} : {A : Type ℓ} → Option A → Option A → Option A
over a (some b) = some b
over a none = a

-- A base URL without the slash at its end.
unfoldable pub trim_base_url : Option Text → Option Text
unfolding last_or
trim_base_url none = none
trim_base_url (some url) = some (if last_or 0 url == b'/' then drop_last url else url)

-- `{ ...a, ...b }`
abbrev pub spread : {E D : Type 0} → Config E D → Config E D → Config E D
spread a b = record {
  base_url = over a.base_url b.base_url;
  headers = b.headers;
  auth = over a.auth b.auth;
  body_serializer = over a.body_serializer b.body_serializer;
  query_serializer = over a.query_serializer b.query_serializer;
  request_validator = over a.request_validator b.request_validator;
  response_validator = over a.response_validator b.response_validator;
  response_transformer = over a.response_transformer b.response_transformer;
  parse_as = over a.parse_as b.parse_as;
  response_style = over a.response_style b.response_style;
  throw_on_error = over a.throw_on_error b.throw_on_error;
}

-- The headers of the spread are overwritten in every use of it.
unfoldable pub merge_configs : {E D : Type 0} → Config E D → Config E D → Config E D
unfolding trim_base_url merge_headers
merge_configs a b = record (spread a b) {
  base_url = trim_base_url (over a.base_url b.base_url);
  headers = headers (merge_headers (a.headers ∷ b.headers ∷ []));
}

abbrev pub default_query_options : QueryOptions
default_query_options = record {
  allow_reserved = false;
  array = record { explode = some true; style = some form };
  object = record { explode = some true; style = some deep_object };
}

-- `defaultQuerySerializer`
abbrev pub default_query_serializer : QuerySerializer
default_query_serializer = options (record { common = default_query_options; parameters = [] })

abbrev pub default_headers : HeadersInit
default_headers = record_of ((codes "Content-Type", primitive (codes "application/json")) ∷ [])

-- `createConfig()`, with the JSON serializer of bodySerializer.gen.ts.
abbrev pub created : {E D : Type 0} → (json_body : Value → Result E Value) → Config E D
created json_body = record {
  base_url = none;
  headers = default_headers;
  auth = none;
  body_serializer = some (serializer json_body);
  query_serializer = some default_query_serializer;
  request_validator = none;
  response_validator = none;
  response_transformer = none;
  parse_as = some auto;
  response_style = none;
  throw_on_error = none;
}
