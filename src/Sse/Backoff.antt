-- ===== src/Sse/Backoff.antt =====
-- How long the loop waits between connections.
use integr8s_code.Base.{
  ℕ, zero, suc, ◌+◌, ◌≤◌, arith, false, List, [], ◌∷◌, ℤ, pos, negsuc, at_most, All, min,
}
use integr8s_code.Sse.{Memory}
use integr8s_code.Sse.Connection.{Decoder}
use integr8s_code.Sse.Reconnect.{
  Options, Round, refused, failed, sleep, value_or, backoff, start, progress, loop, stream,
}
use integr8s_code.Sse.Bounds.{sleeps, sleeps-events, loop-cases}

abbrev pub cap : Options → ℕ
cap o = value_or o.max_retry_delay 30000

abbrev pub IsWithin : ℕ → ℤ → Type 0
IsWithin c (pos n) = n ≤ c
IsWithin c (negsuc n) = Unit

at_most-IsWithin : (z : ℤ) (c : ℕ) → IsWithin c (at_most z c)
unfolding at_most
at_most-IsWithin (pos n) c = ground arith
at_most-IsWithin (negsuc n) c = tt

backoff-IsWithin : (o : Options) (n : ℕ) (m : Memory) → IsWithin (cap o) (backoff o n m)
unfolding backoff
backoff-IsWithin o n m = at_most-IsWithin _ (cap o)

abbrev pub refusal : Round
refusal = record { aborted = false; attempt = refused }

-- The waits from a first one, doubled each time and cut at the cap.
abbrev pub doubling : (count first c : ℕ) → List ℤ
doubling zero first c = []
doubling (suc n) first c = pos (min first c) ∷ doubling n (first + first) c

module _ (d : Decoder) where
  -- No wait is longer than the cap, whatever `retry:` lines the server sends.
  loop-IsWithin :
      (o : Options) (rs : List Round) (n : ℕ) (m : Memory)
      → All (IsWithin (cap o)) (sleeps (loop d o rs n m).0)
  loop-IsWithin o [] n m = unfold loop in tt
  loop-IsWithin o (r ∷ rs) n m =
      let p = progress d r.attempt m in
      let es = p.events in
      let more = failed ∷ sleep (backoff o (suc n) p.memory) ∷ (loop d o rs (suc n) p.memory).0 in
      loop-cases d (λ out. All (IsWithin (cap o)) (sleeps out.0)) o r rs n m tt
        (rw (sleeps-events es []) tt) (λ out. rw (sleeps-events es (failed ∷ [])) tt)
        (λ on.
          rw (sleeps-events es more)
            (backoff-IsWithin o (suc n) p.memory, loop-IsWithin o rs (suc n) p.memory))

  -- Whatever the network and the server do, also with a `retry:` line of any size, no wait is longer
  -- than the cap (30 s if none is given).
  pub stream-IsWithin :
      (o : Options) (rs : List Round) → All (IsWithin (cap o)) (sleeps (stream d o rs).0)
  unfolding stream
  stream-IsWithin o rs = loop-IsWithin o rs 0 (start o)
