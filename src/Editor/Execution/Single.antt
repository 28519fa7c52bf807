-- ===== src/Editor/Execution/Single.antt =====
-- A page that calls the class only while `isExecuting` is false, as its run button does, has one run
-- at a time: the class then goes from rest to a start, to a stream, and back to rest.
use Prim.Native.String.{String}
use integr8s_code.Api.{ExecutionStatus}
use integr8s_code.Base.{
  ℕ, true, false, ◌≡◌, ◌⊎◌, refl, none, some, List, [], ◌∷◌, length, get_elem?, arith,
  get_elem?-set_of_some, get_elem?-append_length,
}
use integr8s_code.Editor.Execution.{
  StartMutation, State, Event, waiting, following, returned, execute_called, abort_called,
  reset_called, ExecutionPhase, ExecutionRequest, ExecutionResponse, StreamEvent, idle, queued,
  step, execute, abort, reset, on_event, on_error, on_end, on_start, on_start_failure, get_or,
  is_executing, is_idle, active_phase,
}
use integr8s_code.Editor.Execution.Runs.{live, live-append, live-set}

active_phase-is_idle :
    (x : ExecutionStatus) (p : ExecutionPhase)
    → is_idle p ≡ false
    → is_idle (get_or (active_phase x) p) ≡ false
unfolding active_phase
active_phase-is_idle x p h = ground arith

module _ {R : Type 0} (s : StartMutation) where
  pub record Resting (t : State R s.M) : Type 0 where
    pub phase : t.phase ≡ idle
    pub settled : s.is_pending t.start ≡ false
    pub none_live : live t.runs ≡ 0

  pub record Starting (r : ℕ) (q : ExecutionRequest) (m : s.M) (t : State R s.M) : Type 0 where
    pub phase : t.phase ≡ idle
    pub pending : t.start ≡ (s.mutate m).1
    pub run : get_elem? t.runs r ≡ some (waiting (s.mutate m).0 q)
    pub one_live : live t.runs ≡ 1

  pub record Reading (r c : ℕ) (id : String) (t : State R s.M) : Type 0 where
    pub phase : is_idle t.phase ≡ false
    pub settled : s.is_pending t.start ≡ false
    pub run : get_elem? t.runs r ≡ some (following c id)
    pub one_live : live t.runs ≡ 1

  pub data Single (t : State R s.M) : Type 0 where
    resting : Resting t → Single t
    starting_up : (r : ℕ) (q : ExecutionRequest) (m : s.M) → Starting r q m t → Single t
    reading : (r c : ℕ) (id : String) → Reading r c id t → Single t

  -- The page calls a method only while `isExecuting` is false.
  abbrev pub Allowed : Event R → State R s.M → Type 0
  Allowed (execute_called q) t = is_executing s t ≡ false
  Allowed abort_called t = is_executing s t ≡ false
  Allowed reset_called t = is_executing s t ≡ false
  Allowed _ t = Unit

  abbrev pub AllAllowed : List (Event R) → State R s.M → Type 0
  AllAllowed [] t = Unit
  AllAllowed (e ∷ es) t = Allowed e t × AllAllowed es (step s e t)

  pub Starting-is_executing :
      (r : ℕ) (q : ExecutionRequest) (m : s.M) (t : State R s.M)
      → Starting r q m t
      → is_executing s t ≡ true
  unfolding is_executing
  Starting-is_executing r q m t v = rw (v.pending, s.mutate_is_pending m)

  pub Reading-is_executing :
      (r c : ℕ) (id : String) (t : State R s.M) → Reading r c id t → is_executing s t ≡ true
  unfolding is_executing
  Reading-is_executing r c id t v = ground arith

  pub Resting-is_executing : (t : State R s.M) → Resting t → is_executing s t ≡ false
  unfolding is_executing
  Resting-is_executing t v = ground arith

  pub execute-Starting :
      (q : ExecutionRequest) (t : State R s.M)
      → Resting t
      → Starting (length t.runs) q (s.reset t.start) (execute s q t)
  unfolding execute
  execute-Starting q t v = record {
    phase = refl;
    pending = refl;
    run = get_elem?-append_length t.runs _;
    one_live =
        omega (arith, live-append t.runs (waiting (s.mutate (s.reset t.start)).0 q), v.none_live);
  }

  pub abort-Resting : (t : State R s.M) → Resting t → Resting (abort s t)
  unfolding abort
  abort-Resting t v = ground arith

  pub reset-Resting : (t : State R s.M) → Resting t → Resting (reset s t)
  unfolding reset
  reset-Resting t v = record {
    phase = refl;
    settled = s.reset_is_pending t.start;
    none_live = v.none_live;
  }

  pub on_start-Reading :
      (r : ℕ) (q : ExecutionRequest) (m : s.M) (e : ExecutionResponse) (t : State R s.M)
      → Starting r q m t
      → Reading r (length t.aborted) e.execution_id (on_start s r (s.mutate m).0 e t)
  unfolding on_start
  on_start-Reading r q m e t v = record {
    phase = active_phase-is_idle e.status queued refl;
    settled = rw v.pending (s.settle_is_pending m none);
    run = get_elem?-set_of_some t.runs r _ _ v.run;
    one_live = omega (
      arith,
      live-set t.runs r _ (following (length t.aborted) e.execution_id) v.run,
      v.one_live,
    );
  }

  pub on_start_failure-Resting :
      (r : ℕ) (q : ExecutionRequest) (m : s.M) (d : String) (t : State R s.M)
      → Starting r q m t
      → Resting (on_start_failure s r (s.mutate m).0 d t)
  unfolding on_start_failure
  on_start_failure-Resting r q m d t v = record {
    phase = v.phase;
    settled = rw v.pending (s.settle_is_pending m (some d));
    none_live = omega (arith, live-set t.runs r _ returned v.run, v.one_live);
  }

  pub on_event-Single :
      (r c : ℕ) (id : String) (e : StreamEvent R) (t : State R s.M)
      → Reading r c id t
      → Reading r c id (on_event s r e t) ⊎ Resting (on_event s r e t)
  unfolding on_event
  on_event-Single r c id e t v = ground (arith, live-set t.runs r (following c id) returned)

  pub on_error-Reading :
      (r c : ℕ) (id : String) (t : State R s.M)
      → Reading r c id t
      → Reading r c id (on_error s c id t)
  unfolding on_error
  on_error-Reading r c id t v = ground arith

  pub on_end-Resting :
      (r c : ℕ) (id : String) (t : State R s.M) → Reading r c id t → Resting (on_end s r c id t)
  unfolding on_end
  on_end-Resting r c id t v = ground (arith, live-set t.runs r (following c id) returned)
