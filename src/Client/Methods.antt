-- ===== src/Client/Methods.antt =====
-- The functions that createClient of frontend/src/lib/api/client/client.gen.ts hands out: one for each
-- HTTP method, one for each method's event stream, and those that read and change the configuration.
pub mod Streams
use integr8s_code.Base.{Option, none, some, List, [], ◌∷◌, Text, codes}
use integr8s_code.Headers.{Headers, set}
use integr8s_code.Client.Values.{Value}
use integr8s_code.Client.Results.{Result, ok, ◌>>=◌}
use integr8s_code.Client.Url.{UrlOptions, build_url, given}
use integr8s_code.Client.Configuration.{
  Config, merge_configs, created, spread, default_query_serializer,
}
use integr8s_code.Client.Request.{RequestOptions, Resolved, World, Interceptors, Answer}
use integr8s_code.Client.Request.Preparing.{before_request}
use integr8s_code.Client.Request.Interception.{run_request_interceptors}
use integr8s_code.Client.Request.Sending.{request_body, request}

-- What `createSseClient` is given; `opts` are the options of the call, which the interceptors see.
pub record SseCall (w : World) : Type 0 where
  pub opts : Resolved w.E w.D
  pub url : Text
  pub method : Text
  pub serialized_body : Value

-- `_config` of a new client.
unfoldable pub create_client :
    {E D : Type 0} → (json_body : Value → Result E Value) → Config E D → Config E D
unfolding merge_configs
create_client json_body config = merge_configs (created json_body) config

unfoldable pub set_config : {E D : Type 0} → Config E D → Config E D → Config E D
unfolding merge_configs
set_config now config = merge_configs now config

-- `Last-Event-ID`, in front of each connection of a stream.
resumed : Option Text → Headers → Headers
unfolding set
resumed none h = h
resumed (some id) h = set (codes "Last-Event-ID") id h

module _ (w : World) where
  unfoldable pub make_method_fn :
      Interceptors w
      → Config w.E w.D
      → (method : Text) → RequestOptions w.E w.D
      → Result w.E (Answer w)
  unfolding request
  make_method_fn fns config method o = request w fns config (record o { method = method })

  unfoldable pub make_sse_fn :
      Config w.E w.D → (method : Text) → RequestOptions w.E w.D → Result w.E (SseCall w)
  unfolding before_request request_body
  make_sse_fn config method o = before_request w config o >>= λ p.
      ok (record { opts = p.0; url = p.1; method = method; serialized_body = request_body w p.0 })

  -- The request of one connection: `onRequest` over what the stream's loop gives it. The loop sets the
  -- id in the very headers that the options hold.
  unfoldable pub connection :
      Interceptors w → SseCall w → (last_event_id : Option Text) → Result w.E (w.Q × Option w.E)
  unfolding resumed run_request_interceptors
  connection fns call last_event_id =
      let opts = record call.opts { headers = resumed last_event_id call.opts.headers } in
      w.make_request (record opts { method = call.method }) call.serialized_body call.url >>= λ q.
      ok (run_request_interceptors w fns.request opts q)

  -- `buildUrl` of the client.
  unfoldable pub client_build_url : Config w.E w.D → RequestOptions w.E w.D → Option Text
  unfolding build_url
  client_build_url config o =
      let c = spread config o.settings in
      build_url (given c.query_serializer default_query_serializer)
        (record { base_url = c.base_url; path = o.path; query = o.query; url = o.url })
