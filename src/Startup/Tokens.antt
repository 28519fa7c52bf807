-- ===== src/Startup/Tokens.antt =====
-- Every call that is no GET carries the token of the session's cookie.
use integr8s_code.Base.{
  ◌≡◌, ◌≢◌, refl, ap, ◌∙◌, Bool, none, some, List, [], ◌∷◌, Text, codes, text_eq, lookup, All,
  if◌then◌else◌,
}
use integr8s_code.Headers.{Headers, get, lower_text}
use integr8s_code.Csrf.{Request, csrf_header, csrf_interceptor}
use integr8s_code.Csrf.Laws.{render, IsCookie, name_key, csrf_interceptor-sends}
use integr8s_code.Client.Results.{ok}
use integr8s_code.Client.Configuration.{Config}
use integr8s_code.Client.Interceptors.{use_interceptor}
use integr8s_code.Client.Request.{RequestOptions, Resolved, World, Interceptors}
use integr8s_code.Client.Request.Sending.{prepared, send, try_request}
use integr8s_code.Client.Request.Interception.{run_request_interceptors}
use integr8s_code.Startup.{Browser, initialize, set_up, attempt, add_token}

module _ (w : World) (b : Browser w) where
  -- Headers that are put into a request are there, and its method stays.
  abbrev pub IsSettable : Type 0
  IsSettable =
      (h : Headers) (q : w.Q)
      → (b.headers (b.with_headers h q) ≡ h) × (b.method (b.with_headers h q) ≡ b.method q)

  abbrev token_added : w.Q → w.Q
  token_added q =
      b.with_headers
        (csrf_interceptor b.cookie (record { method = b.method q; headers = b.headers q })).headers
        q

  own_interceptor :
      (signed_in : Bool) (config : Config w.E w.D)
      → (set_up w b signed_in config).interceptors.request ≡ some (add_token w b) ∷ []
  unfolding initialize use_interceptor
  own_interceptor signed_in config = refl

  run_own :
      (opts : Resolved w.E w.D) (q : w.Q)
      → run_request_interceptors w (some (add_token w b) ∷ []) opts q ≡ (token_added q, none)
  unfolding run_request_interceptors add_token
  run_own opts q = refl

  sent_with_token :
      (fns : Interceptors w) (config : Config w.E w.D) (o : RequestOptions w.E w.D)
      (opts : Resolved w.E w.D) (q : w.Q)
      → fns.request ≡ some (add_token w b) ∷ []
      → prepared w config o ≡ ok (opts, q)
      → try_request w fns config o ≡ send w fns opts (token_added q, none)
  unfolding try_request send
  sent_with_token fns config o opts q e p =
      rw (try_request, p)
        (ap (send w fns opts) (ap (λ l. run_request_interceptors w l opts q) e ∙ run_own opts q))

  -- A call of the application whose request is no GET, in a browser whose cookies have a token that
  -- is not empty: the request that is fetched is the one that the call prepared with the token in
  -- the header X-CSRF-Token; its method and its other headers are as they were prepared.
  pub try_request-initialize :
      (signed_in : Bool) (config : Config w.E w.D) (o : RequestOptions w.E w.D)
      (opts : Resolved w.E w.D) (q : w.Q) (jar : List (Text × Text)) (token name : Text)
      → IsSettable
      → b.cookie ≡ render jar
      → All IsCookie jar
      → lookup name_key jar ≡ some token
      → token ≢ []
      → prepared w (set_up w b signed_in config).config o ≡ ok (opts, q)
      → b.method q ≢ codes "GET"
      → (sent : w.Q) × (attempt w b signed_in config o
          ≡ send w (set_up w b signed_in config).interceptors opts (sent, none))
        × (b.method sent ≡ b.method q)
        × (get name (b.headers sent) ≡ (
            if text_eq (lower_text csrf_header) (lower_text name)
            then some token
            else get name (b.headers q)))
  try_request-initialize signed_in config o opts q jar token name law c h found full p other =
      let r : Request = record { method = b.method q; headers = b.headers q } in
      let sends = csrf_interceptor-sends jar r token name h found full other in
      (
        token_added q,
        sent_with_token (set_up w b signed_in config).interceptors
            (set_up w b signed_in config).config o opts q (own_interceptor signed_in config) p,
        (law _ q).1,
        ap (get name) ((law _ q).0) ∙ ap (λ s. get name (csrf_interceptor s r).headers) c ∙ sends.1,
      )
