-- ===== src/Client/Request/Preparing.antt =====
-- What a call is before it is sent: beforeRequest of frontend/src/lib/api/client/client.gen.ts.
pub mod Method
use integr8s_code.Base.{◌||◌, Option, none, some, List, [], ◌∷◌, if◌then◌else◌, Text, codes}
use integr8s_code.Headers.{Headers, delete}
use integr8s_code.Client.Values.{Value, undefined}
use integr8s_code.Client.Results.{Result, ok, thrown, or_throw, ◌>>=◌}
use integr8s_code.Client.Auth.{Auth, token, Credentials, set_auth_params}
use integr8s_code.Client.Url.{UrlOptions, build_url, given}
use integr8s_code.Client.Merging.{merge_headers}
use integr8s_code.Client.Configuration.{
  RequestData, Config, BodySerializer, serializer, spread, default_query_serializer,
}
use integr8s_code.Client.Request.{RequestOptions, Resolved, is_undefined, is_empty_string, World}

module _ (w : World) where
  -- `if (opts.security) await setAuthParams(opts)`
  with_credentials : Config w.E w.D → Option (List Auth) → Credentials → Credentials
  unfolding set_auth_params
  with_credentials c none credentials = credentials
  with_credentials c (some security) credentials =
      set_auth_params w.btoa (given c.auth (token none)) security credentials

  validated_request : Option (RequestData → Option w.E) → RequestData → Result w.E (Unit {0})
  validated_request none request = ok tt
  validated_request (some check) request = elim (check request) [ some e ↦ thrown e | none ↦ ok tt ]

  -- `opts.serializedBody`
  serialized : Option (BodySerializer w.E) → (body : Value) → Result w.E Value
  serialized (some (serializer f)) body = if is_undefined body then ok undefined else f body
  serialized _ body = ok undefined

  final_headers : (body sent : Value) → Headers → Headers
  unfolding delete
  final_headers body sent h =
      if is_undefined body || is_empty_string sent then delete (codes "Content-Type") h else h

  url_options : RequestOptions w.E w.D → Config w.E w.D → Credentials → UrlOptions
  url_options o c credentials = record {
    base_url = c.base_url;
    path = o.path;
    query = credentials.query;
    url = o.url;
  }

  unfoldable pub before_request :
      Config w.E w.D → RequestOptions w.E w.D → Result w.E (Resolved w.E w.D × Text)
  unfolding merge_headers with_credentials validated_request serialized final_headers url_options
      build_url
  before_request config o =
      let c = spread config o.settings in
      let credentials = with_credentials c o.security (record {
        headers = merge_headers (config.headers ∷ o.settings.headers ∷ []);
        query = o.query;
      }) in
      validated_request c.request_validator
        (record { body = o.body; path = o.path; query = credentials.query })
      >>= λ _. serialized c.body_serializer o.body >>= λ sent.
          or_throw w.bad_url (
            build_url (given c.query_serializer default_query_serializer)
              (url_options o c credentials))
          >>= λ url. ok (
            record {
              settings = c;
              headers = final_headers o.body sent credentials.headers;
              body = o.body;
              serialized_body = sent;
              path = o.path;
              query = credentials.query;
              url = o.url;
              method = o.method;
            },
            url,
          )
