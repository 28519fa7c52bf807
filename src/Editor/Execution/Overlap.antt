-- ===== src/Editor/Execution/Overlap.antt =====
-- What two runs that overlap do to each other, and how a run stops.
use Prim.Native.String.{String}
use integr8s_code.Base.{
  ℕ, true, ◌≡◌, ◌≢◌, ◌⊎◌, ap, ◌∙◌, none, some, [], ◌∷◌, get_elem?, set, arith, if◌then◌else◌,
  get_elem?-set_ne,
}
use integr8s_code.Editor.Execution.{
  StartMutation, State, following, returned, abort_called, reset_called, stream_yielded,
  stream_ended, StreamEvent, idle, step, steps, abort, reset, on_event, on_end, is_result_stored,
  failure_message,
}

module _ {R : Type 0} (s : StartMutation) where
  step-stream_ended_drops :
      (r c : ℕ) (id : String) (t : State R s.M)
      → get_elem? t.runs r ≡ some (following c id)
      → let u = step s (stream_ended r) t in
        (u.phase ≡ idle)
        × (u.controller ≡ none)
        × (u.runs ≡ set t.runs r returned)
        × (u.aborted ≡ t.aborted)
  unfolding step on_end
  step-stream_ended_drops r c id t g = ground arith

  abort-no_controller :
      (t : State R s.M) → t.controller ≡ none → (step s abort_called t).aborted ≡ t.aborted
  unfolding step abort
  abort-no_controller t k = rw k

  -- When the stream of one run ends while another run reads its own, the class drops the other run's
  -- controller and stores the phase `idle`: the other run goes on, and a later `abort` aborts no
  -- signal at all.
  pub stream_ended-drops_controller :
      (old new c d : ℕ) (old_id new_id : String) (t : State R s.M)
      → old ≢ new
      → get_elem? t.runs old ≡ some (following c old_id)
      → get_elem? t.runs new ≡ some (following d new_id)
      → t.controller ≡ some d
      → let u = step s (stream_ended old) t in
        (u.phase ≡ idle)
        × (u.controller ≡ none)
        × (get_elem? u.runs new ≡ some (following d new_id))
        × ((step s abort_called u).aborted ≡ t.aborted)
  stream_ended-drops_controller old new c d old_id new_id t ne g h k =
      let (phase, controller, runs, aborted) = step-stream_ended_drops old c old_id t g in
      (
        phase,
        controller,
        ap (λ rs. get_elem? rs new) runs ∙ get_elem?-set_ne t.runs old new returned ne ∙ h,
        abort-no_controller (step s (stream_ended old) t) controller ∙ aborted,
      )

  -- `reset` stops no run: a run that reads its stream when the output is cleared still shows its
  -- result once that comes, and the failure message of an event that reports a failure.
  pub reset-keeps_reading :
      (r c : ℕ) (id : String) (e : StreamEvent R) (t : State R s.M)
      → get_elem? t.runs r ≡ some (following c id)
      → (is_result_stored e.event_type ≡ true)
        ⊎ ((m : String) × (failure_message e.event_type ≡ some m))
      → let u = steps s (reset_called ∷ stream_yielded r e ∷ []) t in
        (u.result ≡ e.result)
        × (u.stream_error
            ≡ (if is_result_stored e.event_type then none else failure_message e.event_type))
  unfolding steps step reset on_event
  reset-keeps_reading r c id e t g h = ground arith
