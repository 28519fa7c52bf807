-- ===== src/Sse/Reconnect.antt =====
-- The loop of `createSseClient` that connects again after a failure, in
-- frontend/src/lib/api/core/serverSentEvents.gen.ts. What the network and the caller's abort signal
-- do is a list of rounds, one for each time the loop begins anew.
use integr8s_code.Base.{
  ℕ, suc, Bool, true, false, ◌||◌, Option, none, some, List, [], ◌∷◌, ◌++◌, map, leb, if◌then◌else◌,
  Text, ℤ, pos, shift, at_most, ◌-◌,
}
use integr8s_code.Sse.{Memory}
use integr8s_code.Sse.Connection.{Decoder, StreamEvent, Progress, read_all}

pub record Options : Type 0 where
  pub default_retry_delay : Option ℕ
  pub max_retry_attempts : Option ℕ
  pub max_retry_delay : Option ℕ

-- A request that gives no stream: `fetch` throws, the response is no success, or it has no body. Or
-- a stream, whose reads end in `done` or in an exception.
pub data Attempt : Type 0 where
  refused : Attempt
  streamed : (reads : List Text) → (broken : Bool) → Attempt

pub record Round : Type 0 where
  pub aborted : Bool
  pub attempt : Attempt

pub data Action (J : Type 0) : Type 0 where
  connect : (last_event_id : Option Text) → Action J
  event : StreamEvent J → Action J
  failed : Action J
  sleep : (ms : ℤ) → Action J

-- How the loop stands: it has been aborted, its stream has ended, it has given up, or the rounds go
-- on.
pub data Status : Type 0 where
  aborted ended gave_up going : Status

abbrev pub value_or : Option ℕ → ℕ → ℕ
value_or (some n) m = n
value_or none m = m

unfoldable pub exhausted : Option ℕ → (attempt : ℕ) → Bool
exhausted none attempt = false
exhausted (some limit) attempt = leb limit attempt

-- `Math.min(retryDelay * 2 ** (attempt - 1), sseMaxRetryDelay ?? 30000)`
unfoldable pub backoff : Options → (attempt : ℕ) → Memory → ℤ
backoff o attempt m = at_most (shift m.retry_delay (attempt - 1)) (value_or o.max_retry_delay 30000)

unfoldable pub start : Options → Memory
start o = record { last_event_id = none; retry_delay = pos (value_or o.default_retry_delay 3000) }

module _ (d : Decoder) where
  unfoldable pub progress : Attempt → Memory → Progress d.J
  progress refused m = record { events = []; memory = m; thrown = true }
  progress (streamed reads broken) m =
      let p = read_all d reads [] m in record p { thrown = p.thrown || broken }

  abbrev pub and_more : List (Action d.J) → List (Action d.J) × Status → List (Action d.J) × Status
  and_more actions (more, status) = (actions ++ more, status)

  unfoldable pub loop : Options → List Round → (attempt : ℕ) → Memory → List (Action d.J) × Status
  unfolding progress backoff exhausted
  loop o [] attempt m = ([], going)
  loop o (r ∷ rs) attempt m =
      let p = progress r.attempt m in
      let made = connect m.last_event_id ∷ map event p.events in
      let again = loop o rs (suc attempt) p.memory in
      if r.aborted
      then ([], Status.aborted)
      else and_more made (
          if p.thrown
          then (if exhausted o.max_retry_attempts (suc attempt)
              then (failed ∷ [], gave_up)
              else and_more (failed ∷ sleep (backoff o (suc attempt) p.memory) ∷ []) again)
          else ([], ended))

  -- The stream from its beginning.
  unfoldable pub stream : Options → List Round → List (Action d.J) × Status
  unfolding loop start
  stream o rs = loop o rs 0 (start o)
