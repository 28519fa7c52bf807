-- ===== src/Client/Request.antt =====
-- A request from its options to its answer: createClient in
-- frontend/src/lib/api/client/client.gen.ts; this file holds the data, and getValidRequestBody of
-- frontend/src/lib/api/core/utils.gen.ts. `World` is the platform: Request, fetch, Response, JSON.
pub mod Preparing
pub mod Interception
pub mod Reading
pub mod Sending
pub mod Answers
pub mod Total
use integr8s_code.Base.{
  ℕ, Bool, true, false, not, ◌&&◌, ◌||◌, Option, none, some, List, [], ◌∷◌, ◌++◌, ◌==◌,
  if◌then◌else◌, Text, codes, is_empty, text_eq,
}
use integr8s_code.Headers.{Headers, delete}
use integr8s_code.Client.Values.{Value, undefined, null, string}
use integr8s_code.Client.Results.{Result, ok, thrown, or_throw}
use integr8s_code.Client.ParseAs.{
  BodyKind, array_buffer, blob, form_data, json, stream, text, ParseAs, auto, always, get_parse_as,
}
use integr8s_code.Client.Auth.{Auth, Callback, token, Credentials, set_auth_params}
use integr8s_code.Client.Url.{QuerySerializer, options, UrlOptions, build_url, given}
use integr8s_code.Client.Merging.{HeadersInit, headers, merge_headers}
use integr8s_code.Client.Configuration.{
  RequestData, Config, BodySerializer, no_serializer, serializer, ResponseStyle, data_style,
  fields_style, over, spread, default_query_serializer,
}

-- `options` of one call; a body that is not given is `undefined`.
pub record RequestOptions (E D : Type 0) : Type 0 where
  pub settings : Config E D
  pub body : Value
  pub path : Option (List (Text × Value))
  pub query : Option (List (Text × Value))
  pub security : Option (List Auth)
  pub url : Text
  pub method : Text

-- `opts`, as `beforeRequest` leaves them.
pub record Resolved (E D : Type 0) : Type 0 where
  pub settings : Config E D
  pub headers : Headers
  pub body : Value
  pub serialized_body : Value
  pub path : Option (List (Text × Value))
  pub query : Option (List (Text × Value))
  pub url : Text
  pub method : Text

abbrev pub is_undefined : Value → Bool
is_undefined undefined = true
is_undefined _ = false

abbrev pub is_empty_string : Value → Bool
is_empty_string (string s) = is_empty s
is_empty_string _ = false

-- `getValidRequestBody`; `serialized` is `none` where the options have no such key.
unfoldable pub get_valid_request_body :
    (body : Value) (has_serializer : Bool) (serialized : Option Value) → Value
get_valid_request_body body false serialized = body
get_valid_request_body body true none =
    if is_undefined body then undefined else if is_empty_string body then null else body
get_valid_request_body body true (some sent) =
    if is_undefined body
    then undefined
    else if is_undefined sent || is_empty_string sent
    then null
    else sent

abbrev pub has_serializer : {E : Type 0} → Option (BodySerializer E) → Bool
has_serializer (some (serializer f)) = true
has_serializer _ = false

-- What the client uses of the platform. `read` is `response[kind]()`; the errors of `build_url` and of
-- the schemes' encoding are one exception.
pub record World : Type 1 where
  pub E : Type 0
  pub Q : Type 0
  pub S : Type 0
  pub D : Type 0
  pub btoa : Text → Text
  pub bad_url : E
  pub make_request : Resolved E D → (body : Value) → (url : Text) → Result E Q
  pub fetch : Q → Result E S
  pub is_ok : S → Bool
  pub status : S → ℕ
  pub header : S → Text → Option Text
  pub body_of : S → D
  pub read : BodyKind → S → Result E D
  pub read_text : S → Result E Text
  pub parse_json : Text → Result E D
  pub new_form_data : D
  pub empty_object : D
  pub is_nullish : D → Bool
  pub json_error : D → E
  pub text_error : Text → E
  pub is_falsy : E → Bool
  pub empty_error : E

pub record Interceptors (w : World) : Type 0 where
  pub request : List (Option (w.Q → Resolved w.E w.D → Result w.E w.Q))
  pub response : List (Option (w.S → w.Q → Resolved w.E w.D → Result w.E w.S))
  pub error : List (Option (w.E → Option w.S → Option w.Q → Result w.E w.E))

-- What a call returns: data alone, or data or an error with the request and the response.
pub data Answer (w : World) : Type 0 where
  only_data : w.D → Answer w
  fields : w.D → w.Q → w.S → Answer w
  nothing : Answer w
  failed : w.E → Option w.Q → Option w.S → Answer w

-- A run of the `try` block: the request and the response as last assigned, and how it ended.
pub record Tried (w : World) : Type 0 where
  pub request : Option w.Q
  pub response : Option w.S
  pub result : Result w.E (Answer w)
