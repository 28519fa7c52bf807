-- ===== src/Client/Request/Total.antt =====
-- A call of the client answers.
use integr8s_code.Base.{◌≡◌, refl, false, Option, none, some, List, [], ◌∷◌, All}
use integr8s_code.Client.Results.{Result, ok, thrown}
use integr8s_code.Client.Configuration.{Config, spread}
use integr8s_code.Client.Request.{RequestOptions, World, Interceptors, Answer, Tried}
use integr8s_code.Client.Request.Interception.{run_error_interceptors}
use integr8s_code.Client.Request.Sending.{try_request, is_true, failure, caught, request}

module _ (w : World) where
  -- An interceptor of errors that answers an error, whatever it is given.
  abbrev pub NeverThrows : Option (w.E → Option w.S → Option w.Q → Result w.E w.E) → Type 0
  NeverThrows none = Unit
  NeverThrows (some fn) =
      (e : w.E) (s : Option w.S) (q : Option w.Q) → (f : w.E) × (fn e s q ≡ ok f)

  run_error_interceptors_total :
      (fns : List (Option (w.E → Option w.S → Option w.Q → Result w.E w.E))) (s : Option w.S)
      (q : Option w.Q) (e : w.E)
      → All NeverThrows fns
      → (f : w.E) × (run_error_interceptors w fns s q e ≡ ok f)
  unfolding run_error_interceptors
  run_error_interceptors_total [] s q e h = (e, refl)
  run_error_interceptors_total (none ∷ fns) s q e h = run_error_interceptors_total fns s q e h.1
  run_error_interceptors_total (some fn ∷ fns) s q e h =
      let (f, answered) = h.0 e s q in rw answered (run_error_interceptors_total fns s q f h.1)

  failure_total :
      (c : Config w.E w.D) (t : Tried w) (e : w.E)
      → is_true c.throw_on_error ≡ false
      → (answer : Answer w) × (failure w c t e ≡ ok answer)
  unfolding failure
  failure_total c t e h = rw (failure, h) (_, refl)

  caught_total :
      (fns : Interceptors w) (c : Config w.E w.D) (t : Tried w) (r : Result w.E (Answer w))
      → is_true c.throw_on_error ≡ false
      → All NeverThrows fns.error
      → (answer : Answer w) × (caught w fns c t r ≡ ok answer)
  unfolding caught
  caught_total fns c t (ok answer) h k = (answer, refl)
  caught_total fns c t (thrown e) h k =
      let (f, answered) = run_error_interceptors_total fns.error t.response t.request e k in
      rw (caught, answered) (failure_total c t f h)

  -- A call that is not asked to throw always answers, whatever fails in preparing the request, in the
  -- interceptors of requests and responses, in the network or in reading the response, as long as the
  -- interceptors of errors themselves do not throw.
  pub request_total :
      (fns : Interceptors w) (config : Config w.E w.D) (o : RequestOptions w.E w.D)
      → is_true (spread config o.settings).throw_on_error ≡ false
      → All NeverThrows fns.error
      → (answer : Answer w) × (request w fns config o ≡ ok answer)
  unfolding request
  request_total fns config o h k =
      let t = try_request w fns config o in
      caught_total fns (spread config o.settings) t t.result h k
