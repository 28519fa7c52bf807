-- ===== src/Editor/Execution/Invariant.antt =====
-- What holds of the page's runs after any events in any order.
use Prim.Native.String.{String}
use integr8s_code.Api.{ExecutionStatus}
use integr8s_code.Base.{
  ℕ, Bool, true, false, ◌≡◌, ◌≢◌, ◌||◌, refl, Option, none, some, List, [], ◌∷◌, length, get_elem?,
  set, any, arith, get_elem?-append_length, ◌==◌, any_of_get_elem?, any-set_self, any-set_other,
}
use integr8s_code.Editor.Execution.{
  StartMutation, State, Event, Run, waiting, following, returned, execute_called, abort_called,
  reset_called, start_succeeded, start_failed, stream_yielded, stream_failed, stream_ended,
  ExecutionPhase, ExecutionRequest, ExecutionResponse, StreamEvent, get_or, queued, at_start,
  at_stream, active_phase, is_idle, finish, starting, step, steps, initial, execute, abort, reset,
  on_start, on_start_failure, on_event, on_error, on_end,
}

abbrev pub follows : ℕ → Run → Bool
follows c (following d _) = c == d
follows c _ = false

abbrev pub is_following : Run → Bool
is_following (following _ _) = true
is_following _ = false

-- The controller that `abort` would abort is that of a run that reads its stream, and has not been
-- aborted.
abbrev pub Owned : Option ℕ → List Bool → List Run → Type 0
Owned none aborted runs = Unit
Owned (some c) aborted runs = (get_elem? aborted c ≡ some false) × (any (follows c) runs ≡ true)

-- A phase other than `idle` is that of some run that reads its stream.
pub record Inv {R M : Type 0} (t : State R M) : Type 0 where
  pub not_starting : t.phase ≢ starting
  pub active : (is_idle t.phase || any is_following t.runs) ≡ true
  pub owned : Owned t.controller t.aborted t.runs

active_phase-ne-starting :
    (x : ExecutionStatus) (p : ExecutionPhase) → p ≢ starting → get_or (active_phase x) p ≢ starting
unfolding active_phase
active_phase-ne-starting x p h = ground arith

-- A run that waits for its start request owns no controller, so it may change.
Owned-set :
    (o : Option ℕ) (aborted : List Bool) (runs : List Run) (r ticket : ℕ) (q : ExecutionRequest)
    (run : Run)
    → get_elem? runs r ≡ some (waiting ticket q)
    → Owned o aborted runs
    → Owned o aborted (set runs r run)
Owned-set none aborted runs r ticket q run g h = tt
Owned-set (some c) aborted runs r ticket q run g h =
    (h.0, any-set_other (follows c) runs r (waiting ticket q) run g refl h.1)

active-set :
    (p : ExecutionPhase) (runs : List Run) (r ticket : ℕ) (q : ExecutionRequest) (run : Run)
    → get_elem? runs r ≡ some (waiting ticket q)
    → (is_idle p || any is_following runs) ≡ true
    → (is_idle p || any is_following (set runs r run)) ≡ true
active-set p runs r ticket q run g h =
    ground (arith, any-set_other is_following runs r (waiting ticket q) run)

module _ {R : Type 0} (s : StartMutation) where
  pub at_start_cases {κ} :
      (P : State R s.M → Type κ) (o : Option Run) (k : ℕ → State R s.M) (t : State R s.M)
      → P t
      → ((ticket : ℕ) (q : ExecutionRequest) → o ≡ some (waiting ticket q) → P (k ticket))
      → P (at_start s o k t)
  at_start_cases P none k t h f = h
  at_start_cases P (some (waiting ticket q)) k t h f = f ticket q refl
  at_start_cases P (some (following _ _)) k t h f = h
  at_start_cases P (some returned) k t h f = h

  pub at_stream_cases {κ} :
      (P : State R s.M → Type κ) (o : Option Run) (k : ℕ → String → State R s.M) (t : State R s.M)
      → P t
      → ((c : ℕ) (id : String) → o ≡ some (following c id) → P (k c id))
      → P (at_stream s o k t)
  at_stream_cases P none k t h f = h
  at_stream_cases P (some (waiting _ _)) k t h f = h
  at_stream_cases P (some (following c id)) k t h f = f c id refl
  at_stream_cases P (some returned) k t h f = h

  abort-Inv : (t : State R s.M) → Inv (abort s t)
  unfolding abort
  abort-Inv t = ground arith

  reset-Inv : (t : State R s.M) → Inv t → Inv (reset s t)
  unfolding reset
  reset-Inv t v = ground arith

  execute-Inv : (q : ExecutionRequest) (t : State R s.M) → Inv (execute s q t)
  unfolding execute
  execute-Inv q t = ground arith

  on_start-Inv :
      (r ticket : ℕ) (q : ExecutionRequest) (e : ExecutionResponse) (t : State R s.M)
      → get_elem? t.runs r ≡ some (waiting ticket q)
      → Inv (on_start s r ticket e t)
  unfolding on_start
  on_start-Inv r ticket q e t g = record {
    not_starting = active_phase-ne-starting e.status queued (cc);
    active = ground (
      arith,
      any-set_self is_following t.runs r (waiting ticket q)
          (following (length t.aborted) e.execution_id),
    );
    owned = (
      get_elem?-append_length t.aborted false,
      any-set_self (follows (length t.aborted)) t.runs r (waiting ticket q)
          (following (length t.aborted) e.execution_id) g (ground arith),
    );
  }

  on_start_failure-Inv :
      (r ticket : ℕ) (q : ExecutionRequest) (d : String) (t : State R s.M)
      → get_elem? t.runs r ≡ some (waiting ticket q)
      → Inv t
      → Inv (on_start_failure s r ticket d t)
  unfolding on_start_failure
  on_start_failure-Inv r ticket q d t g v = record {
    not_starting = v.not_starting;
    active = active-set t.phase t.runs r ticket q returned g v.active;
    owned = Owned-set t.controller t.aborted t.runs r ticket q returned g v.owned;
  }

  finish-Inv : (r : ℕ) (t : State R s.M) → Inv (finish s r t)
  unfolding finish
  finish-Inv r t = ground arith

  on_event-Inv :
      (r c : ℕ) (id : String) (e : StreamEvent R) (t : State R s.M)
      → get_elem? t.runs r ≡ some (following c id)
      → Inv t
      → Inv (on_event s r e t)
  unfolding on_event
  on_event-Inv r c id e t g v =
      ground (arith, any_of_get_elem? is_following t.runs r (following c id))

  on_end-Inv : (r c : ℕ) (id : String) (t : State R s.M) → Inv (on_end s r c id t)
  unfolding on_end
  on_end-Inv r c id t = ground arith

  on_error-Inv : (c : ℕ) (id : String) (t : State R s.M) → Inv t → Inv (on_error s c id t)
  unfolding on_error
  on_error-Inv c id t v = ground arith

  step-Inv : (e : Event R) (t : State R s.M) → Inv t → Inv (step s e t)
  unfolding step
  step-Inv (execute_called q) t v = execute-Inv q t
  step-Inv abort_called t v = abort-Inv t
  step-Inv reset_called t v = reset-Inv t v
  step-Inv (start_succeeded r e) t v =
      at_start_cases Inv (get_elem? t.runs r) (λ ticket. on_start s r ticket e t) t v
        (λ ticket q g. on_start-Inv r ticket q e t g)
  step-Inv (start_failed r d) t v =
      at_start_cases Inv (get_elem? t.runs r) (λ ticket. on_start_failure s r ticket d t) t v
        (λ ticket q g. on_start_failure-Inv r ticket q d t g v)
  step-Inv (stream_yielded r e) t v =
      at_stream_cases Inv (get_elem? t.runs r) (λ c id. on_event s r e t) t v
        (λ c id g. on_event-Inv r c id e t g v)
  step-Inv (stream_failed r) t v =
      at_stream_cases Inv (get_elem? t.runs r) (λ c id. on_error s c id t) t v
        (λ c id g. on_error-Inv c id t v)
  step-Inv (stream_ended r) t v =
      at_stream_cases Inv (get_elem? t.runs r) (λ c id. on_end s r c id t) t v
        (λ c id g. on_end-Inv r c id t)

  initial-Inv : Inv (initial {R = R} s)
  unfolding initial
  initial-Inv = ground arith

  steps_from-Inv : (es : List (Event R)) (t : State R s.M) → Inv t → Inv (steps s es t)
  unfolding steps
  steps_from-Inv [] t v = v
  steps_from-Inv (e ∷ es) t v = steps_from-Inv es (step s e t) (step-Inv e t v)

  -- After any events in any order: the phase that the class stores is never `starting`, it is
  -- `idle` unless some run reads its stream, and the controller that `abort` would abort is one that
  -- has not been aborted, of a run that reads its stream.
  pub steps-Inv : (es : List (Event R)) → Inv (steps s es (initial s))
  steps-Inv es = steps_from-Inv es (initial s) initial-Inv
