-- ===== src/Client/Request/Answers.antt =====
-- Where the data that a call of the client answers comes from.
use integr8s_code.Base.{◌≡◌, true, Option, none}
use integr8s_code.Client.Results.{ok}
use integr8s_code.Client.Configuration.{Config}
use integr8s_code.Client.Request.{RequestOptions, Resolved, World, Interceptors, fields}
use integr8s_code.Client.Request.Interception.{run_request_interceptors, run_response_interceptors}
use integr8s_code.Client.Request.Reading.{read_success}
use integr8s_code.Client.Request.Sending.{prepared, request}

module _ (w : World) where
  -- How data came about: the request that the call made and that passed the interceptors, the response
  -- that fetching it gave and that passed them too, and the reading of that response, which is a
  -- success.
  pub record Fetched (fns : Interceptors w) (config : Config w.E w.D) (o : RequestOptions w.E w.D)
      (d : w.D) (q : w.Q) (s : w.S) : Type 0 where
    pub opts : Resolved w.E w.D
    pub made : w.Q
    pub raw : w.S
    pub is_prepared : prepared w config o ≡ ok (opts, made)
    pub is_requested : run_request_interceptors w fns.request opts made ≡ (q, none)
    pub is_fetched : w.fetch q ≡ ok raw
    pub is_responded : run_response_interceptors w fns.response q opts raw ≡ (s, none)
    pub is_success : w.is_ok s ≡ true
    pub is_read : read_success w opts.settings q s ≡ ok (fields d q s)

  -- Behind the request interceptors.
  abbrev SentWell :
      (fns : Interceptors w) (opts : Resolved w.E w.D) (p q : w.Q) (s : w.S) (o : Option w.E)
      (d : w.D)
      → Type 0
  SentWell fns opts p q s o d =
      (raw : w.S) × (o ≡ none)
      × (p ≡ q)
      × (w.fetch q ≡ ok raw)
      × (run_response_interceptors w fns.response q opts raw ≡ (s, none))
      × (w.is_ok s ≡ true)
      × (read_success w opts.settings q s ≡ ok (fields d q s))
