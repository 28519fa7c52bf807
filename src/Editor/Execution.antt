-- ===== src/Editor/Execution.antt =====
-- One page's runs of scripts: the class `ExecutionState` of
-- frontend/src/lib/editor/execution.svelte.ts. Each method is a function on the state; what the
-- page, the start request and the event stream do to it is a sequence of events. A call of
-- `execute` that waits for its start request or for its stream is a run, and runs of several calls
-- may overlap.
pub mod Invariant
pub mod Outcome
mod Examples
pub mod Flight
pub mod Overlap
pub mod Runs
pub mod Single
use Prim.Native.String.{String}
use integr8s_code.Base.{
  ℕ, Bool, true, false, not, ◌≡◌, Option, none, some, List, [], ◌∷◌, ◌++◌, length, get_elem?, set,
  if◌then◌else◌,
}
use integr8s_code.Api.{
  ExecutionStatus, StreamEventType, event, execution_failed, execution_timeout, result_failed,
  result_stored,
}

-- The mutation observer behind `createMutation`, which TanStack Query implements. It shows the
-- mutation that was started last; `mutate` answers a ticket for the one that it starts, and
-- `settle` tells the observer how a mutation ended, with the detail of its error if it failed.
pub record StartMutation : Type 1 where
  pub M : Type 0
  pub fresh : M
  pub mutate : M → ℕ × M
  pub settle : (ticket : ℕ) → (error : Option String) → M → M
  pub reset : M → M
  pub is_pending : M → Bool
  pub error : M → Option String
  pub fresh_is_pending : is_pending fresh ≡ false
  pub fresh_error : error fresh ≡ none
  pub mutate_is_pending : (m : M) → is_pending (mutate m).1 ≡ true
  pub mutate_error : (m : M) → error (mutate m).1 ≡ none
  pub settle_is_pending :
      (m : M) (e : Option String) → is_pending (settle (mutate m).0 e (mutate m).1) ≡ false
  pub settle_error : (m : M) (e : Option String) → error (settle (mutate m).0 e (mutate m).1) ≡ e
  pub reset_is_pending : (m : M) → is_pending (reset m) ≡ false
  pub reset_error : (m : M) → error (reset m) ≡ none

pub data ExecutionPhase : Type 0 where
  idle starting queued scheduled running : ExecutionPhase

-- `isActivePhase`, with the status as the phase of the same name.
unfoldable pub active_phase : ExecutionStatus → Option ExecutionPhase
active_phase ExecutionStatus.queued = some queued
active_phase ExecutionStatus.scheduled = some scheduled
active_phase ExecutionStatus.running = some running
active_phase _ = none

unfoldable pub failure_message : StreamEventType → Option String
failure_message (event execution_failed) = some "Execution failed."
failure_message (event execution_timeout) = some "Execution timed out."
failure_message (event result_failed) = some "Failed to store execution results."
failure_message _ = none

abbrev pub is_result_stored : StreamEventType → Bool
is_result_stored (event result_stored) = true
is_result_stored _ = false

pub record ExecutionRequest : Type 0 where
  pub script : String
  pub lang : String
  pub lang_version : String

pub record ExecutionResponse : Type 0 where
  pub execution_id : String
  pub status : ExecutionStatus

-- An event of the stream; `R` stands for `ExecutionResult`, which this class only hands on.
pub record StreamEvent (R : Type 0) : Type 0 where
  pub event_type : StreamEventType
  pub status : Option ExecutionStatus
  pub result : Option R

-- A call of `execute`: it waits for its start request, it reads a stream under a controller, or it
-- has returned.
pub data Run : Type 0 where
  waiting : (ticket : ℕ) → ExecutionRequest → Run
  following : (controller : ℕ) → (execution_id : String) → Run
  returned : Run

pub data Warning : Type 0 where
  lost_connection : (execution_id : String) → Warning
  ended_early : (execution_id : String) → Warning

-- A controller is its place in `aborted`, which holds `signal.aborted` of every controller made.
pub record State (R : Type 0) (M : Type 0) : Type 0 where
  pub phase : ExecutionPhase
  pub result : Option R
  pub stream_error : Option String
  pub controller : Option ℕ
  pub start : M
  pub aborted : List Bool
  pub runs : List Run
  pub warnings : List Warning

pub data Event (R : Type 0) : Type 0 where
  execute_called : ExecutionRequest → Event R
  abort_called reset_called : Event R
  start_succeeded : (run : ℕ) → ExecutionResponse → Event R
  start_failed : (run : ℕ) → (detail : String) → Event R
  stream_yielded : (run : ℕ) → StreamEvent R → Event R
  stream_failed : (run : ℕ) → Event R
  stream_ended : (run : ℕ) → Event R

abbrev pub or_else {ℓ} : {A : Type ℓ} → Option A → Option A → Option A
or_else (some a) o = some a
or_else none o = o

abbrev pub get_or {ℓ} : {A : Type ℓ} → Option A → A → A
get_or (some a) b = a
get_or none b = b

abbrev pub is_idle : ExecutionPhase → Bool
is_idle idle = true
is_idle _ = false

abort_controller : Option ℕ → List Bool → List Bool
abort_controller none cells = cells
abort_controller (some c) cells = set cells c true

module _ {R : Type 0} (s : StartMutation) where
  unfoldable pub initial : State R s.M
  initial = record {
    phase = idle;
    result = none;
    stream_error = none;
    controller = none;
    start = s.fresh;
    aborted = [];
    runs = [];
    warnings = [];
  }

  -- The getter `phase`.
  unfoldable pub shown_phase : State R s.M → ExecutionPhase
  shown_phase t = if s.is_pending t.start then starting else t.phase

  -- The getter `error`; no message that is stored is empty.
  unfoldable pub shown_error : State R s.M → Option String
  shown_error t = or_else t.stream_error (s.error t.start)

  unfoldable pub is_executing : State R s.M → Bool
  unfolding shown_phase
  is_executing t = not (is_idle (shown_phase t))

  unfoldable pub reset : State R s.M → State R s.M
  reset t = record t { phase = idle; result = none; stream_error = none; start = s.reset t.start }

  unfoldable pub abort : State R s.M → State R s.M
  unfolding abort_controller
  abort t = record t {
    aborted = abort_controller t.controller t.aborted;
    controller = none;
    phase = idle;
  }

  -- `execute` up to its `await`.
  unfoldable pub execute : ExecutionRequest → State R s.M → State R s.M
  unfolding abort reset
  execute request t =
      let ready = reset (abort t) in
      let (ticket, pending) = s.mutate ready.start in
      record ready { start = pending; runs = ready.runs ++ waiting ticket request ∷ [] }

  -- `#follow` up to the first event of its stream.
  unfoldable pub follow : (run : ℕ) → ExecutionResponse → State R s.M → State R s.M
  unfolding active_phase
  follow r response t =
      let c = length t.aborted in
      record t {
        aborted = t.aborted ++ false ∷ [];
        controller = some c;
        phase = get_or (active_phase response.status) queued;
        runs = set t.runs r (following c response.execution_id);
      }

  -- The end of `#follow`.
  unfoldable pub finish : (run : ℕ) → State R s.M → State R s.M
  finish r t = record t { controller = none; phase = idle; runs = set t.runs r returned }

  abbrev pub signal_aborted : ℕ → State R s.M → Bool
  signal_aborted c t = get_or (get_elem? t.aborted c) false

  abbrev pub set_phase : Option ExecutionStatus → State R s.M → State R s.M
  unfolding active_phase
  set_phase none t = t
  set_phase (some status) t = record t { phase = get_or (active_phase status) t.phase }

  close : (run : ℕ) → StreamEvent R → Option String → State R s.M → State R s.M
  unfolding finish
  close r ev none t = t
  close r ev (some message) t =
      finish r (record t { result = ev.result; stream_error = some message })

  -- One round of the `for await`.
  unfoldable pub on_event : (run : ℕ) → StreamEvent R → State R s.M → State R s.M
  unfolding finish close failure_message active_phase
  on_event r ev t =
      let u = set_phase ev.status t in
      if is_result_stored ev.event_type
      then finish r (record u { result = ev.result })
      else close r ev (failure_message ev.event_type) u

  warn : Warning → State R s.M → State R s.M
  warn w t = record t { warnings = t.warnings ++ w ∷ [] }

  -- The end of the `for await` without a terminal event.
  unfoldable pub on_end : (run controller : ℕ) → (execution_id : String) → State R s.M → State R s.M
  unfolding finish warn
  on_end r c id t = finish r (
      if signal_aborted c t
      then t
      else warn (ended_early id) (record t { stream_error = some "Connection to server lost." }))

  -- `onSseError`
  unfoldable pub on_error : (controller : ℕ) → (execution_id : String) → State R s.M → State R s.M
  unfolding warn
  on_error c id t = if signal_aborted c t then t else warn (lost_connection id) t

  -- `execute` behind its `await`; the observer has then seen how the mutation ended.
  unfoldable pub on_start : (run ticket : ℕ) → ExecutionResponse → State R s.M → State R s.M
  unfolding follow
  on_start r ticket response t =
      follow r response (record t { start = s.settle ticket none t.start })

  unfoldable pub on_start_failure : (run ticket : ℕ) → (detail : String) → State R s.M → State R s.M
  on_start_failure r ticket detail t = record t {
    start = s.settle ticket (some detail) t.start;
    runs = set t.runs r returned;
  }

  -- What happens to a run that is not at the `await` in question does not occur: it changes nothing.
  abbrev pub at_start : Option Run → (ℕ → State R s.M) → State R s.M → State R s.M
  at_start (some (waiting ticket request)) k t = k ticket
  at_start _ k t = t

  abbrev pub at_stream : Option Run → (ℕ → String → State R s.M) → State R s.M → State R s.M
  at_stream (some (following c id)) k t = k c id
  at_stream _ k t = t

  unfoldable pub step : Event R → State R s.M → State R s.M
  unfolding execute abort reset on_start on_start_failure on_event on_error on_end
  step (execute_called request) t = execute request t
  step abort_called t = abort t
  step reset_called t = reset t
  step (start_succeeded r response) t =
      at_start (get_elem? t.runs r) (λ ticket. on_start r ticket response t) t
  step (start_failed r detail) t =
      at_start (get_elem? t.runs r) (λ ticket. on_start_failure r ticket detail t) t
  step (stream_yielded r ev) t = at_stream (get_elem? t.runs r) (λ c id. on_event r ev t) t
  step (stream_failed r) t = at_stream (get_elem? t.runs r) (λ c id. on_error c id t) t
  step (stream_ended r) t = at_stream (get_elem? t.runs r) (λ c id. on_end r c id t) t

  unfoldable pub steps : List (Event R) → State R s.M → State R s.M
  steps [] t = t
  steps (e ∷ es) t = steps es (step e t)
