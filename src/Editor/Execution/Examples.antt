-- ===== src/Editor/Execution/Examples.antt =====
-- The theorems at runs of the page, over a mutation observer that keeps its latest mutation.
use Prim.Native.String.{String}
use integr8s_code.Api.{result_stored, execution_failed, pod_running, event}
use integr8s_code.Api
use integr8s_code.Base.{
  ℕ, suc, Bool, true, false, ◌≡◌, refl, Option, none, some, List, [], ◌∷◌, get_elem?, arith,
  if◌then◌else◌, ◌==◌,
}
use integr8s_code.Editor.Execution.{
  StartMutation, State, Event, following, returned, execute_called, abort_called, start_succeeded,
  stream_yielded, stream_ended, ExecutionRequest, ExecutionResponse, StreamEvent, idle, starting,
  queued, running, step, steps, initial, shown_phase, shown_error, is_executing, failure_message,
  active_phase,
}
use integr8s_code.Editor.Execution.Invariant.{Inv, steps-Inv}
use integr8s_code.Editor.Execution.Outcome.{execute-Ended, execute-phase}
use integr8s_code.Editor.Execution.Overlap.{stream_ended-drops_controller}
use integr8s_code.Editor.Execution.Runs.{live}
use integr8s_code.Editor.Execution.Flight.{live-steps}

-- The number of mutations so far, whether the last is pending, and its error.
record Observer : Type 0 where
  count : ℕ
  pending : Bool
  failure : Option String

abbrev mutated : Observer → Observer
mutated o = record { count = suc o.count; pending = true; failure = none }

abbrev settled : ℕ → Option String → Observer → Observer
settled ticket e o =
    if ticket == o.count then record { count = o.count; pending = false; failure = e } else o

settled_pending :
    (o : Observer) (e : Option String) → (settled (suc o.count) e (mutated o)).pending ≡ false
settled_pending o e = ground arith

settled_failure :
    (o : Observer) (e : Option String) → (settled (suc o.count) e (mutated o)).failure ≡ e
settled_failure o e = ground arith

abbrev observer : StartMutation
observer = record {
  M = Observer;
  fresh = record { count = 0; pending = false; failure = none };
  mutate = λ o. (suc o.count, mutated o);
  settle = settled;
  reset = λ o. record { count = o.count; pending = false; failure = none };
  is_pending = λ o. o.pending;
  error = λ o. o.failure;
  fresh_is_pending = refl;
  fresh_error = refl;
  mutate_is_pending = λ o. refl;
  mutate_error = λ o. refl;
  settle_is_pending = settled_pending;
  settle_error = settled_failure;
  reset_is_pending = λ o. refl;
  reset_error = λ o. refl;
}

abbrev hello : ExecutionRequest
hello = record { script = "print(1)"; lang = "python"; lang_version = "3.11" }

abbrev accepted : ExecutionResponse
accepted = record { execution_id = "e1"; status = Api.ExecutionStatus.queued }

-- The result of a run is a number here.
abbrev at_work : StreamEvent ℕ
at_work = record {
  event_type = event pod_running;
  status = some Api.ExecutionStatus.running;
  result = none;
}

abbrev stored : StreamEvent ℕ
stored = record { event_type = event result_stored; status = none; result = some 7 }

abbrev fresh_page : State ℕ Observer
fresh_page = record {
  phase = idle;
  result = none;
  stream_error = none;
  controller = none;
  start = record { count = 0; pending = false; failure = none };
  aborted = [];
  runs = [];
  warnings = [];
}

abbrev session : List (Event ℕ)
session =
    execute_called hello
    ∷ start_succeeded 0 accepted
    ∷ stream_yielded 0 at_work
    ∷ stream_yielded 0 stored
    ∷ []

session_shows_result : (steps observer session (initial observer)).result ≡ some 7
unfolding steps step initial
session_shows_result = refl

steps-Inv_example : Inv (steps observer session (initial observer))
steps-Inv_example = steps-Inv observer session

-- The first run is still reading when the page is reset and runs again.
abbrev overlapping : List (Event ℕ)
overlapping =
    execute_called hello
    ∷ start_succeeded 0 accepted
    ∷ execute_called hello
    ∷ start_succeeded 1 accepted
    ∷ []

abbrev two_runs : State ℕ Observer
two_runs = record {
  phase = queued;
  result = none;
  stream_error = none;
  controller = some 1;
  start = record { count = 2; pending = false; failure = none };
  aborted = true ∷ false ∷ [];
  runs = following 0 "e1" ∷ following 1 "e1" ∷ [];
  warnings = [];
}

overlapping_reaches_two_runs : steps observer overlapping (initial observer) ≡ two_runs
unfolding steps step initial
overlapping_reaches_two_runs = refl

execute-Ended_example :
    let u =
      steps observer
        (execute_called hello
          ∷ start_succeeded 0 accepted
          ∷ stream_yielded 0 at_work
          ∷ stream_yielded 0 stored
          ∷ stream_ended 0
          ∷ [])
        fresh_page in
    (u.result ≡ some 7)
    × (shown_error observer u ≡ none)
    × (shown_phase observer u ≡ idle)
    × (u.controller ≡ none)
    × (get_elem? u.runs 0 ≡ some returned)
unfolding failure_message
execute-Ended_example = execute-Ended observer hello accepted (at_work ∷ stored ∷ []) fresh_page

execute-phase_example :
    let u =
      steps observer
        (execute_called hello ∷ start_succeeded 0 accepted ∷ stream_yielded 0 at_work ∷ [])
        fresh_page in
    (shown_phase observer (step observer (execute_called hello) fresh_page) ≡ starting)
    × (shown_phase observer u ≡ running)
    × (shown_error observer u ≡ none)
    × (u.result ≡ none)
unfolding failure_message active_phase
execute-phase_example =
    execute-phase observer hello accepted (at_work ∷ []) fresh_page ((refl, refl), tt)

stream_ended-drops_controller_example :
    let u = step observer (stream_ended 0) two_runs in
    (u.phase ≡ idle)
    × (u.controller ≡ none)
    × (get_elem? u.runs 1 ≡ some (following 1 "e1"))
    × ((step observer abort_called u).aborted ≡ two_runs.aborted)
stream_ended-drops_controller_example =
    stream_ended-drops_controller observer 0 1 0 1 "e1" "e1" two_runs (omega arith) refl refl refl

live-steps_example :
    let t = steps observer session (initial observer) in
    live t.runs ≡ (if is_executing observer t then 1 else 0)
unfolding steps step initial is_executing
live-steps_example = live-steps observer session (refl, (tt, (tt, (tt, tt))))
