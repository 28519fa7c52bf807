-- ===== src/Startup.antt =====
-- What the application sets up before the first page: initializeApiInterceptors of
-- frontend/src/lib/api-interceptors.ts, which frontend/src/hooks.client.ts calls, and the error
-- handlers of frontend/src/lib/query-client.ts. The client's setting of credentials is the platform's.
pub mod Failures
pub mod Tokens
mod Examples
use integr8s_code.Base.{ℕ, Bool, true, false, Option, none, some, List, [], Text}
use integr8s_code.Headers.{Headers}
use integr8s_code.Csrf.{csrf_interceptor}
use integr8s_code.Errors.{ErrorResponse, Effect, show_api_error, error_interceptor, retry}
use integr8s_code.Client.Results.{Result, ok}
use integr8s_code.Client.Configuration.{Config}
use integr8s_code.Client.Methods.{set_config}
use integr8s_code.Client.Merging.{HeadersInit, record_of}
use integr8s_code.Client.Interceptors.{use_interceptor}
use integr8s_code.Client.Request.Sending.{try_request}
use integr8s_code.Client.Request.{RequestOptions, Tried, World, Interceptors, Resolved}

-- What the interceptors see of requests, errors and the browser. `problem` is
-- `zErrorResponse.safeParse(error)`, `value` an ErrorResponse as an error, `as_error` an error as the
-- handlers take it.
pub record Browser (w : World) : Type 0 where
  pub cookie : Text
  pub method : w.Q → Text
  pub headers : w.Q → Headers
  pub with_headers : Headers → w.Q → w.Q
  pub problem : w.E → Option ErrorResponse
  pub value : ErrorResponse → w.E
  pub as_error : w.E → ErrorResponse

-- The client's settings and interceptors, and `handleError` of the query client.
pub record App (w : World) : Type 0 where
  pub config : Config w.E w.D
  pub interceptors : Interceptors w
  pub handle_error : ErrorResponse → (inline_errors : Bool) → List Effect

-- Before anything is set up.
abbrev pub fresh : {w : World} → Config w.E w.D → App w
fresh config = record {
  config = config;
  interceptors = record { request = []; response = []; error = [] };
  handle_error = λ e inline_errors. [];
}

module _ (w : World) (b : Browser w) where
  -- `request.headers.set` changes the request that it is given.
  unfoldable pub add_token : w.Q → Resolved w.E w.D → Result w.E w.Q
  unfolding csrf_interceptor
  add_token q opts = ok (
      b.with_headers
        (csrf_interceptor b.cookie (record { method = b.method q; headers = b.headers q })).headers
        q)

  abbrev pub status_of : Option w.S → Option ℕ
  status_of (some s) = some (w.status s)
  status_of none = none

  unfoldable pub name_failure : w.E → Option w.S → Option w.Q → Result w.E w.E
  unfolding error_interceptor
  name_failure e s q = ok (b.value (error_interceptor (b.problem e) (status_of s)).0)

  abbrev pub own_settings : Config w.E w.D
  own_settings = record {
    base_url = some [];
    headers = record_of [];
    auth = none;
    body_serializer = none;
    query_serializer = none;
    request_validator = none;
    response_validator = none;
    response_transformer = none;
    parse_as = none;
    response_style = none;
    throw_on_error = none;
  }

  -- `signed_in` is whether `page.data.user` is set when an error is shown.
  unfoldable pub initialize : (signed_in : Bool) → App w → App w
  unfolding set_config use_interceptor add_token name_failure show_api_error
  initialize signed_in app = record {
    config = set_config app.config own_settings;
    interceptors = record app.interceptors {
      request = (use_interceptor add_token app.interceptors.request).0;
      error = (use_interceptor name_failure app.interceptors.error).0;
    };
    handle_error = show_api_error signed_in;
  }

  -- `onError` of the query cache, and of the mutation cache with the mutation's `meta`.
  unfoldable pub query_failed : App w → w.E → List Effect
  query_failed app e = app.handle_error (b.as_error e) false

  unfoldable pub mutation_failed : (inline_errors : Option Bool) → App w → w.E → List Effect
  mutation_failed (some true) app e = app.handle_error (b.as_error e) true
  mutation_failed _ app e = app.handle_error (b.as_error e) false

  -- `retry` of the queries.
  unfoldable pub retries : (failures : ℕ) → w.E → Bool
  unfolding retry
  retries failures e = retry failures (b.as_error e)

  -- The application as it is set up from the client's own configuration, and the run of a call in it.
  abbrev pub set_up : (signed_in : Bool) → Config w.E w.D → App w
  set_up signed_in config = initialize signed_in (fresh config)

  abbrev pub attempt : (signed_in : Bool) → Config w.E w.D → RequestOptions w.E w.D → Tried w
  attempt signed_in config o =
      let app = set_up signed_in config in try_request w app.interceptors app.config o
