-- ===== src/Client/Request/Sending.antt =====
-- A request as it is sent and answered: request of frontend/src/lib/api/client/client.gen.ts.
use integr8s_code.Base.{Bool, false, Option, none, some, if◌then◌else◌}
use integr8s_code.Client.Values.{Value}
use integr8s_code.Client.Results.{Result, ok, thrown, ◌>>=◌}
use integr8s_code.Client.Configuration.{Config, data_style, spread}
use integr8s_code.Client.Request.{
  RequestOptions, Resolved, get_valid_request_body, has_serializer, World, Interceptors, Answer,
  nothing, failed, Tried,
}
use integr8s_code.Client.Request.Preparing.{before_request}
use integr8s_code.Client.Request.Interception.{
  run_request_interceptors, run_response_interceptors, run_error_interceptors,
}
use integr8s_code.Client.Request.Reading.{read_success, read_failure}

abbrev pub is_true : Option Bool → Bool
is_true (some b) = b
is_true none = false

module _ (w : World) where
  -- Behind the response interceptors.
  unfoldable pub finish : Config w.E w.D → w.Q → w.S × Option w.E → Tried w
  unfolding read_success read_failure
  finish c q (s, some e) = record { request = some q; response = some s; result = thrown e }
  finish c q (s, none) = record {
    request = some q;
    response = some s;
    result = if w.is_ok s then read_success w c q s else read_failure w s;
  }

  -- Behind the request interceptors.
  unfoldable pub send : Interceptors w → Resolved w.E w.D → w.Q × Option w.E → Tried w
  unfolding finish run_response_interceptors
  send fns opts (q, some e) = record { request = some q; response = none; result = thrown e }
  send fns opts (q, none) = elim (w.fetch q) [
    | thrown e ↦ record { request = some q; response = none; result = thrown e }
    | ok s ↦ finish opts.settings q (run_response_interceptors w fns.response q opts s)
  ]

  unfoldable pub request_body : Resolved w.E w.D → Value
  unfolding get_valid_request_body
  request_body opts =
      get_valid_request_body opts.body (has_serializer opts.settings.body_serializer)
        (some opts.serialized_body)

  -- The options and the first request.
  unfoldable pub prepared :
      Config w.E w.D → RequestOptions w.E w.D → Result w.E (Resolved w.E w.D × w.Q)
  unfolding before_request request_body
  prepared config o = before_request w config o >>= λ p.
      w.make_request p.0 (request_body p.0) p.1 >>= λ q. ok (p.0, q)

  -- The `try` block.
  unfoldable pub try_request : Interceptors w → Config w.E w.D → RequestOptions w.E w.D → Tried w
  unfolding prepared send run_request_interceptors
  try_request fns config o = elim (prepared config o) [
    | thrown e ↦ record { request = none; response = none; result = thrown e }
    | ok (opts, q) ↦ send fns opts (run_request_interceptors w fns.request opts q)
  ]

  -- The `catch` block.
  unfoldable pub failure : Config w.E w.D → Tried w → w.E → Result w.E (Answer w)
  failure c t e =
      let final = if w.is_falsy e then w.empty_error else e in
      if is_true c.throw_on_error
      then thrown final
      else ok (elim (c.response_style) [
        | some data_style ↦ nothing
        | _ ↦ failed final t.request t.response
      ])

  unfoldable pub caught :
      Interceptors w → Config w.E w.D → Tried w → Result w.E (Answer w) → Result w.E (Answer w)
  unfolding run_error_interceptors failure
  caught fns c t (ok answer) = ok answer
  caught fns c t (thrown e) =
      run_error_interceptors w fns.error t.response t.request e >>= λ final. failure c t final

  unfoldable pub request :
      Interceptors w → Config w.E w.D → RequestOptions w.E w.D → Result w.E (Answer w)
  unfolding try_request caught
  request fns config o =
      let t = try_request fns config o in caught fns (spread config o.settings) t t.result
