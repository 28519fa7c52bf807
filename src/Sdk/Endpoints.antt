-- ===== src/Sdk/Endpoints.antt =====
-- What an operation of frontend/src/lib/api/sdk.gen.ts hands to the client: its method, its URL and
-- the type of its body, in front of the options of the call. Each is called at the default client.
use Prim.Native.String.{String}
use integr8s_code.Base.{Bool, true, false, Option, none, some, List, ◌∷◌, Text, codes}
use integr8s_code.Client.Values.{Value}
use integr8s_code.Client.Merging.{HeadersInit, record_of, primitive, entries_of}
use integr8s_code.Client.Configuration.{Config, BodySerializer, over}
use integr8s_code.Client.Request.{RequestOptions}

-- `no_content` is an operation without headers of its own.
pub data Content : Type 0 where
  no_content json_content form_content : Content

-- `is_stream` is a call of `client.sse`.
pub record Endpoint : Type 0 where
  pub id : String
  pub method : String
  pub url : String
  pub content : Content
  pub is_stream : Bool

abbrev pub plain : (id method url : String) → Endpoint
plain i m u = record { id = i; method = m; url = u; content = no_content; is_stream = false }

abbrev pub json : (id method url : String) → Endpoint
json i m u = record { id = i; method = m; url = u; content = json_content; is_stream = false }

abbrev pub form : (id method url : String) → Endpoint
form i m u = record { id = i; method = m; url = u; content = form_content; is_stream = false }

abbrev pub event_stream : (id method url : String) → Endpoint
event_stream i m u = record { id = i; method = m; url = u; content = no_content; is_stream = true }

-- The options of a call (`Options`).
pub record CallOptions (E D : Type 0) : Type 0 where
  pub settings : Config E D
  pub body : Value
  pub path : Option (List (Text × Value))
  pub query : Option (List (Text × Value))

-- `{ 'Content-Type': …, ...options.headers }`, over headers that are given as an object.
unfoldable pub content_headers : Content → HeadersInit → HeadersInit
unfolding entries_of
content_headers no_content h = h
content_headers json_content h =
    record_of ((codes "Content-Type", primitive (codes "application/json")) ∷ entries_of h)
content_headers form_content h =
    record_of
      ((codes "Content-Type", primitive (codes "application/x-www-form-urlencoded")) ∷ entries_of h)

-- `...urlSearchParamsBodySerializer`
abbrev own_serializer : {E : Type 0} → BodySerializer E → Content → Option (BodySerializer E)
own_serializer url_search_params_body form_content = some url_search_params_body
own_serializer url_search_params_body _ = none

unfoldable pub sdk_call :
    {E D : Type 0}
    → (url_search_params_body : BodySerializer E) → Endpoint
    → CallOptions E D
    → RequestOptions E D
unfolding content_headers
sdk_call url_search_params_body e o = record {
  settings = record o.settings {
    headers = content_headers e.content o.settings.headers;
    body_serializer =
        over (own_serializer url_search_params_body e.content) o.settings.body_serializer;
  };
  body = o.body;
  path = o.path;
  query = o.query;
  security = none;
  url = codes e.url;
  method = codes e.method;
}
