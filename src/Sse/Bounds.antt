-- ===== src/Sse/Bounds.antt =====
-- How often the loop connects, how long it waits and what it reports.
use integr8s_code.Base.{
  ℕ, suc, ◌+◌, ◌*◌, ◌≤◌, ◌<◌, ◌≡◌, inl, inr, refl, arith, true, false, Bool-cases, Option, some,
  List, [], ◌∷◌, ◌++◌, map, Text, ℤ, length,
}
use integr8s_code.Sse.{Memory}
use integr8s_code.Sse.Connection.{Decoder, StreamEvent}
use integr8s_code.Sse.Reconnect.{
  Options, Round, Action, connect, event, failed, sleep, Status, aborted, ended, gave_up, exhausted,
  backoff, start, progress, loop, stream,
}

module _ {J : Type 0} where
  abbrev pub connects : List (Action J) → ℕ
  connects [] = 0
  connects (connect _ ∷ acts) = suc (connects acts)
  connects (_ ∷ acts) = connects acts

  abbrev pub failures : List (Action J) → ℕ
  failures [] = 0
  failures (failed ∷ acts) = suc (failures acts)
  failures (_ ∷ acts) = failures acts

  abbrev pub sleeps : List (Action J) → List ℤ
  sleeps [] = []
  sleeps (sleep ms ∷ acts) = ms ∷ sleeps acts
  sleeps (_ ∷ acts) = sleeps acts

  -- One connection: it is opened, and gives its events.
  abbrev pub made : Option Text → List (StreamEvent J) → List (Action J)
  made id es = connect id ∷ map event es

  pub connects-events :
      (es : List (StreamEvent J)) (acts : List (Action J))
      → connects (map event es ++ acts) ≡ connects acts
  connects-events [] acts = refl
  connects-events (e ∷ es) acts = connects-events es acts

  pub failures-events :
      (es : List (StreamEvent J)) (acts : List (Action J))
      → failures (map event es ++ acts) ≡ failures acts
  failures-events [] acts = refl
  failures-events (e ∷ es) acts = failures-events es acts

  pub sleeps-events :
      (es : List (StreamEvent J)) (acts : List (Action J))
      → sleeps (map event es ++ acts) ≡ sleeps acts
  sleeps-events [] acts = refl
  sleeps-events (e ∷ es) acts = sleeps-events es acts

exhausted_at :
    (o : Options) (k n : ℕ)
    → o.max_retry_attempts ≡ some k
    → exhausted o.max_retry_attempts n ≡ true
    → k ≤ n
unfolding exhausted
exhausted_at o k n h out = ground arith

pub not_exhausted_at :
    (o : Options) (k n : ℕ)
    → o.max_retry_attempts ≡ some k
    → exhausted o.max_retry_attempts n ≡ false
    → n < k
unfolding exhausted
not_exhausted_at o k n h on = ground arith

abbrev pub is_ended : Status → ℕ
is_ended ended = 1
is_ended _ = 0

abbrev pub is_gave_up : Status → ℕ
is_gave_up gave_up = 1
is_gave_up _ = 0

gave_up-le : (status : Status) (c k : ℕ) → (status ≡ gave_up → c ≡ k) → is_gave_up status * k ≤ c
gave_up-le gave_up c k h = omega (arith, h refl)
gave_up-le _ c k h = omega arith

module _ (d : Decoder) where
  abbrev pub Outcome : Type 0
  Outcome = List (Action d.J) × Status

  -- The four ways in which one round goes.
  pub loop-cases {ℓ} :
      (P : Outcome → Type ℓ) (o : Options) (r : Round) (rs : List Round) (n : ℕ) (m : Memory)
      → let p = progress d r.attempt m in
        let again = loop d o rs (suc n) p.memory in
        let acts = made m.last_event_id p.events in
        P ([], aborted)
        → P (acts ++ [], ended)
        → (exhausted o.max_retry_attempts (suc n) ≡ true → P (acts ++ failed ∷ [], gave_up))
        → (exhausted o.max_retry_attempts (suc n) ≡ false
            → P (acts ++ failed ∷ sleep (backoff o (suc n) p.memory) ∷ again.0, again.1))
        → P (loop d o (r ∷ rs) n m)
  unfolding loop
  loop-cases P o r rs n m stop finish last more = elim (Bool-cases r.aborted) [
    | inl yes' ↦ rw yes' stop
    | inr no' ↦ elim (Bool-cases (progress d r.attempt m).thrown) [
      | inr fine ↦ rw (no', fine) finish
      | inl broken ↦ elim (Bool-cases (exhausted o.max_retry_attempts (suc n))) [
        | inl out ↦ rw (no', broken, out) (last out)
        | inr on ↦ rw (no', broken, on) (more on)
      ]
    ]
  ]

  -- At most `k` connections from the `n`-th on, and each counted.
  abbrev Accounts : ℕ → ℕ → Outcome → Type 0
  Accounts k n (acts, status) =
      (connects acts + n ≤ k)
      × (failures acts + is_ended status ≡ connects acts)
      × (length (sleeps acts) + is_gave_up status ≡ failures acts)
      × (status ≡ gave_up → connects acts + n ≡ k)

  loop-Accounts :
      (o : Options) (k : ℕ) (rs : List Round) (n : ℕ) (m : Memory)
      → o.max_retry_attempts ≡ some k
      → n < k
      → Accounts k n (loop d o rs n m)
  loop-Accounts o k [] n m h lt = unfold loop in ground arith
  loop-Accounts o k (r ∷ rs) n m h lt =
      let p = progress d r.attempt m in
      let es = p.events in
      let again = loop d o rs (suc n) p.memory in
      let more = failed ∷ sleep (backoff o (suc n) p.memory) ∷ again.0 in
      loop-cases (Accounts k n) o r rs n m (ground arith)
        (rw (connects-events es [], failures-events es [], sleeps-events es []) (ground arith))
        (λ out.
          rw
            (
              connects-events es (failed ∷ []),
              failures-events es (failed ∷ []),
              sleeps-events es (failed ∷ []),
            )
            (let limit = exhausted_at o k (suc n) h out in ground arith))
        (λ on.
          rw (connects-events es more, failures-events es more, sleeps-events es more)
            (let limit = not_exhausted_at o k (suc n) h on in
              let rest = loop-Accounts o k rs (suc n) p.memory h limit in ground arith))

  -- With a limit of k > 0 attempts, whatever the network and the abort signal do: the loop connects
  -- at most k times, and exactly k times if it gives up; it reports one failure for each connection
  -- but the one whose stream ended; and it sleeps once after each failure but the one at which it
  -- gives up.
  pub stream-Accounts :
      (o : Options) (k : ℕ) (rs : List Round)
      → o.max_retry_attempts ≡ some k
      → 0 < k
      → let (acts, status) = stream d o rs in
        (connects acts ≤ k)
        × (is_gave_up status * k ≤ connects acts)
        × (failures acts + is_ended status ≡ connects acts)
        × (length (sleeps acts) + is_gave_up status ≡ failures acts)
  unfolding stream
  stream-Accounts o k rs h room =
      let all = loop-Accounts o k rs 0 (start o) h room in
      (
        omega arith,
        gave_up-le (stream d o rs).1 (connects (stream d o rs).0) k (λ e. omega (arith, all.3 e)),
        all.1,
        all.2,
      )
