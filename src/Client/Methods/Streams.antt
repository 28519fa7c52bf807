-- ===== src/Client/Methods/Streams.antt =====
-- A stream connects with the request that a plain call of its method sends.
use integr8s_code.Base.{
  ◌≡◌, refl, ap, sym, ◌∙◌, inl, inr, Option, none, some, List, [], ◌∷◌, Text, All,
}
use integr8s_code.Client.Results.{Result, ok, thrown, ◌>>=◌, Result-cases}
use integr8s_code.Client.Configuration.{Config}
use integr8s_code.Client.Request.{RequestOptions, Resolved, World, Interceptors}
use integr8s_code.Client.Request.Preparing.{before_request}
use integr8s_code.Client.Request.Preparing.Method.{bind_through, with_method, before_request-method}
use integr8s_code.Client.Request.Interception.{run_request_interceptors}
use integr8s_code.Client.Request.Sending.{request_body, prepared}
use integr8s_code.Client.Methods.{make_sse_fn, connection, resumed}

module _ (w : World) where
  -- An interceptor that looks at the request and not at the options' method.
  abbrev pub IgnoresMethod : Option (w.Q → Resolved w.E w.D → Result w.E w.Q) → Type 0
  IgnoresMethod none = Unit
  IgnoresMethod (some fn) =
      (q : w.Q) (opts : Resolved w.E w.D) (method : Text)
      → fn q (record opts { method = method }) ≡ fn q opts

  run_request_interceptors-method :
      (fns : List (Option (w.Q → Resolved w.E w.D → Result w.E w.Q))) (opts : Resolved w.E w.D)
      (q : w.Q) (method : Text)
      → All IgnoresMethod fns
      → run_request_interceptors w fns (record opts { method = method }) q
        ≡ run_request_interceptors w fns opts q
  unfolding run_request_interceptors
  run_request_interceptors-method [] opts q method h = refl
  run_request_interceptors-method (none ∷ fns) opts q method h =
      run_request_interceptors-method fns opts q method h.1
  run_request_interceptors-method (some fn ∷ fns) opts q method h =
      elim (Result-cases (fn q opts)) [
        | inl (next, e) ↦
            rw (h.0 q opts method, e) (run_request_interceptors-method fns opts next method h.1)
        | inr (x, e) ↦ rw (h.0 q opts method, e) refl
      ]

  -- The request that a call's `fetch` is given, or where an interceptor stopped it.
  unfoldable pub first_request :
      Interceptors w → Config w.E w.D → RequestOptions w.E w.D → Result w.E (w.Q × Option w.E)
  unfolding prepared
  first_request fns config o =
      prepared w config o >>= λ p. ok (run_request_interceptors w fns.request p.0 p.1)

  made : Resolved w.E w.D × Text → Result w.E (Resolved w.E w.D × w.Q)
  made p = w.make_request p.0 (request_body w p.0) p.1 >>= λ q. ok (p.0, q)

  fetched : Interceptors w → Result w.E (Resolved w.E w.D × Text) → Result w.E (w.Q × Option w.E)
  fetched fns b = b >>= made >>= λ p. ok (run_request_interceptors w fns.request p.0 p.1)

  connected :
      Interceptors w → Text → Result w.E (Resolved w.E w.D × Text) → Result w.E (w.Q × Option w.E)
  unfolding connection
  connected fns method b =
      b
      >>= (λ p.
          ok (record {
            opts = p.0;
            url = p.1;
            method = method;
            serialized_body = request_body w p.0;
          }))
      >>= λ call. connection w fns call none

  connected-fetched :
      (fns : Interceptors w) (method : Text) (b : Result w.E (Resolved w.E w.D × Text))
      → All IgnoresMethod fns.request
      → connected fns method b ≡ fetched fns (b >>= with_method w method)
  unfolding connected fetched made with_method connection resumed request_body
  connected-fetched fns method (thrown e) h = refl
  connected-fetched fns method (ok p) h = sym (
      bind_through (w.make_request (record p.0 { method = method }) (request_body w p.0) p.1) _ _ _
        (λ q. ap ok (run_request_interceptors-method fns.request p.0 q method h)))

  -- The first connection of an event stream sends the very request that a plain call with this method
  -- and these options would fetch, and fails before it as that call does, if the interceptors of
  -- requests do not look at the method among the options.
  pub connection-make_sse_fn :
      (fns : Interceptors w) (config : Config w.E w.D) (method : Text) (o : RequestOptions w.E w.D)
      → All IgnoresMethod fns.request
      → (make_sse_fn w config method o >>= λ call. connection w fns call none)
        ≡ first_request fns config (record o { method = method })
  unfolding make_sse_fn first_request prepared connected fetched made
  connection-make_sse_fn fns config method o h =
      connected-fetched fns method (before_request w config o) h
      ∙ ap (fetched fns) (before_request-method w config o method)
