-- ===== src/Client/Request/Interception.antt =====
-- How interceptors run on a request, a response and an error, in
-- frontend/src/lib/api/client/client.gen.ts.
use integr8s_code.Base.{Option, none, some, List, [], ◌∷◌}
use integr8s_code.Client.Results.{Result, ok, thrown}
use integr8s_code.Client.Request.{Resolved, World}

module _ (w : World) where
  -- `for (const fn of interceptors.request.fns)`: the request as last assigned, and an exception.
  unfoldable pub run_request_interceptors :
      List (Option (w.Q → Resolved w.E w.D → Result w.E w.Q))
      → Resolved w.E w.D
      → w.Q
      → w.Q × Option w.E
  run_request_interceptors [] opts q = (q, none)
  run_request_interceptors (none ∷ fns) opts q = run_request_interceptors fns opts q
  run_request_interceptors (some fn ∷ fns) opts q = elim (fn q opts) [
    | ok next ↦ run_request_interceptors fns opts next
    | thrown e ↦ (q, some e)
  ]

  unfoldable pub run_response_interceptors :
      List (Option (w.S → w.Q → Resolved w.E w.D → Result w.E w.S))
      → w.Q
      → Resolved w.E w.D
      → w.S
      → w.S × Option w.E
  run_response_interceptors [] q opts s = (s, none)
  run_response_interceptors (none ∷ fns) q opts s = run_response_interceptors fns q opts s
  run_response_interceptors (some fn ∷ fns) q opts s = elim (fn s q opts) [
    | ok next ↦ run_response_interceptors fns q opts next
    | thrown e ↦ (s, some e)
  ]

  unfoldable pub run_error_interceptors :
      List (Option (w.E → Option w.S → Option w.Q → Result w.E w.E))
      → Option w.S
      → Option w.Q
      → w.E
      → Result w.E w.E
  run_error_interceptors [] s q e = ok e
  run_error_interceptors (none ∷ fns) s q e = run_error_interceptors fns s q e
  run_error_interceptors (some fn ∷ fns) s q e = elim (fn e s q) [
    | ok next ↦ run_error_interceptors fns s q next
    | thrown f ↦ thrown f
  ]
