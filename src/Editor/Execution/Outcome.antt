-- ===== src/Editor/Execution/Outcome.antt =====
-- What one run shows to the user: its phases while it reads, and what it leaves behind.
use Prim.Native.String.{String}
use integr8s_code.Api.{ExecutionStatus}
use integr8s_code.Base.{
  ℕ, false, ◌≡◌, ◌∙◌, ap, sym, subst, ◌⊎◌, inl, inr, refl, Option, none, some, List, [], ◌∷◌, ◌++◌,
  length, map, get_elem?, if◌then◌else◌, arith, get_elem?-append_length, get_elem?-set_of_some, All,
}
use integr8s_code.Editor.Execution.{
  StartMutation, State, Event, waiting, following, returned, execute_called, start_succeeded,
  stream_yielded, stream_ended, ExecutionPhase, ExecutionRequest, ExecutionResponse, StreamEvent,
  active_phase, failure_message, is_result_stored, idle, starting, queued, step, steps, execute,
  on_start, on_event, on_end, shown_phase, shown_error, get_or,
}

abbrev pub next_phase : Option ExecutionStatus → ExecutionPhase → ExecutionPhase
next_phase none p = p
next_phase (some x) p = get_or (active_phase x) p

module _ {R : Type 0} where
  -- A failure's message, or that of a stream that ends without its result.
  abbrev pub verdict : List (StreamEvent R) → Option R × Option String
  verdict [] = (none, some "Connection to server lost.")
  verdict (e ∷ es) =
      let later = verdict es in
      if is_result_stored e.event_type
      then (e.result, none)
      else elim (failure_message e.event_type) [ some m ↦ (e.result, some m) | none ↦ later ]

  -- No event of the list ends the run.
  abbrev pub IsOngoing : StreamEvent R → Type 0
  IsOngoing e = (is_result_stored e.event_type ≡ false) × (failure_message e.event_type ≡ none)

  -- The phase of the last event with an active status.
  abbrev pub last_active : ExecutionPhase → List (StreamEvent R) → ExecutionPhase
  last_active p [] = p
  last_active p (e ∷ es) = last_active (next_phase e.status p) es

module _ {R : Type 0} (s : StartMutation) where
  -- A run that has shown nothing yet, while it reads.
  record Reads (r c : ℕ) (id : String) (t : State R s.M) : Type 0 where
    run : get_elem? t.runs r ≡ some (following c id)
    signal : get_elem? t.aborted c ≡ some false
    no_result : t.result ≡ none
    no_stream_error : t.stream_error ≡ none
    settled : s.is_pending t.start ≡ false
    no_start_error : s.error t.start ≡ none

  record Ended (r : ℕ) (o : Option R × Option String) (t : State R s.M) : Type 0 where
    run : get_elem? t.runs r ≡ some returned
    result : t.result ≡ o.0
    error : shown_error s t ≡ o.1
    phase : shown_phase s t ≡ idle
    controller : t.controller ≡ none

  abbrev reading : ℕ → List (StreamEvent R) → List (Event R)
  reading r es = map (stream_yielded r) es

  on_event-Reads :
      (r c : ℕ) (id : String) (e : StreamEvent R) (t : State R s.M)
      → Reads r c id t
      → IsOngoing e
      → Reads r c id (on_event s r e t)
  unfolding on_event
  on_event-Reads r c id e t v h = ground arith

  on_event-Ended :
      (r c : ℕ) (id : String) (e : StreamEvent R) (es : List (StreamEvent R)) (t : State R s.M)
      → Reads r c id t
      → IsOngoing e ⊎ Ended r (verdict (e ∷ es)) (on_event s r e t)
  unfolding on_event shown_error shown_phase
  on_event-Ended r c id e es t v =
      ground (arith, get_elem?-set_of_some t.runs r (following c id) returned)

  step-returned :
      (r : ℕ) (e : StreamEvent R) (t : State R s.M)
      → get_elem? t.runs r ≡ some returned
      → step s (stream_yielded r e) t ≡ t
  unfolding step
  step-returned r e t g = rw g

  steps-returned :
      (r : ℕ) (es : List (StreamEvent R)) (t : State R s.M)
      → get_elem? t.runs r ≡ some returned
      → steps s (reading r es ++ stream_ended r ∷ []) t ≡ t
  unfolding steps step
  steps-returned r [] t g = rw g
  steps-returned r (e ∷ es) t g =
      subst (λ u. steps s (reading r es ++ stream_ended r ∷ []) u ≡ t) (sym (step-returned r e t g))
        (steps-returned r es t g)

  step-reading :
      (r c : ℕ) (id : String) (e : StreamEvent R) (t : State R s.M)
      → get_elem? t.runs r ≡ some (following c id)
      → step s (stream_yielded r e) t ≡ on_event s r e t
  unfolding step
  step-reading r c id e t g = rw g

  on_end-Ended :
      (r c : ℕ) (id : String) (t : State R s.M)
      → Reads r c id t
      → Ended r (verdict []) (step s (stream_ended r) t)
  unfolding step on_end shown_error shown_phase
  on_end-Ended r c id t v =
      rw v.run (ground (arith, get_elem?-set_of_some t.runs r (following c id) returned))

  verdict-ongoing :
      (e : StreamEvent R) (es : List (StreamEvent R)) → IsOngoing e → verdict (e ∷ es) ≡ verdict es
  verdict-ongoing e es h = ground arith

  Reads-to_the_end :
      (r c : ℕ) (id : String) (es : List (StreamEvent R)) (t : State R s.M)
      → Reads r c id t
      → Ended r (verdict es) (steps s (reading r es ++ stream_ended r ∷ []) t)
  unfolding steps
  Reads-to_the_end r c id [] t v = on_end-Ended r c id t v
  Reads-to_the_end r c id (e ∷ es) t v =
      subst (λ u. Ended r (verdict (e ∷ es)) (steps s (reading r es ++ stream_ended r ∷ []) u))
        (sym (step-reading r c id e t v.run))
        (elim (on_event-Ended r c id e es t v) [
          | inl h ↦
              rw (verdict-ongoing e es h)
                (Reads-to_the_end r c id es (on_event s r e t) (on_event-Reads r c id e t v h))
          | inr h ↦ rw (steps-returned r es (on_event s r e t) h.run) h
        ])

  -- `execute` and a start that succeeds.
  abbrev pub begin : ExecutionRequest → ExecutionResponse → State R s.M → State R s.M
  begin q response t = step s (start_succeeded (length t.runs) response) (execute s q t)

  execute-waiting :
      (q : ExecutionRequest) (t : State R s.M)
      → get_elem? (execute s q t).runs (length t.runs)
        ≡ some (waiting (s.mutate (s.reset t.start)).0 q)
  unfolding execute
  execute-waiting q t = get_elem?-append_length t.runs _

  begin-Reads :
      (q : ExecutionRequest) (response : ExecutionResponse) (t : State R s.M)
      → Reads
          (length t.runs)
          (length (execute s q t).aborted)
          response.execution_id
          (begin q response t)
  unfolding step
  begin-Reads q response t = rw (execute-waiting q t) (
      unfold execute on_start in
      record {
        run =
            get_elem?-set_of_some (execute s q t).runs (length t.runs)
              (waiting (s.mutate (s.reset t.start)).0 q) _ (execute-waiting q t);
        signal = get_elem?-append_length (execute s q t).aborted false;
        no_result = refl;
        no_stream_error = refl;
        settled = s.settle_is_pending (s.reset t.start) none;
        no_start_error = s.settle_error (s.reset t.start) none;
      })

  -- A call of `execute` whose start succeeds, alone with its stream, shows the result of the first
  -- terminal event and its failure message, if it is a failure, and "Connection to server lost." with
  -- no result if the stream ends without one; the page is then idle and holds no controller, and no
  -- event behind the terminal one changes anything.
  pub execute-Ended :
      (q : ExecutionRequest) (response : ExecutionResponse) (es : List (StreamEvent R))
      (t : State R s.M)
      → let r = length t.runs in
        let u =
          steps s
            (execute_called q ∷ start_succeeded r response ∷ (reading r es ++ stream_ended r ∷ []))
            t in
        (u.result ≡ (verdict es).0)
        × (shown_error s u ≡ (verdict es).1)
        × (shown_phase s u ≡ idle)
        × (u.controller ≡ none)
        × (get_elem? u.runs r ≡ some returned)
  unfolding steps step
  execute-Ended q response es t =
      let end = Reads-to_the_end (length t.runs) _ _ es _ (begin-Reads q response t) in
      (end.result, end.error, end.phase, end.controller, end.run)

  phase-on_event :
      (r : ℕ) (e : StreamEvent R) (t : State R s.M)
      → IsOngoing e
      → (on_event s r e t).phase ≡ next_phase e.status t.phase
  unfolding on_event
  phase-on_event r e t h = ground arith

  phase-reading :
      (r c : ℕ) (id : String) (es : List (StreamEvent R)) (t : State R s.M)
      → Reads r c id t
      → All IsOngoing es
      → let u = steps s (reading r es) t in Reads r c id u × (u.phase ≡ last_active t.phase es)
  unfolding steps
  phase-reading r c id [] t v h = (v, refl)
  phase-reading r c id (e ∷ es) t v h =
      subst
        (λ u.
          Reads r c id (steps s (reading r es) u)
          × ((steps s (reading r es) u).phase ≡ last_active (next_phase e.status t.phase) es))
        (sym (step-reading r c id e t v.run))
        (rw (← phase-on_event r e t h.0)
          (phase-reading r c id es (on_event s r e t) (on_event-Reads r c id e t v h.0) h.1))

  phase-begin :
      (q : ExecutionRequest) (response : ExecutionResponse) (t : State R s.M)
      → (begin q response t).phase ≡ get_or (active_phase response.status) queued
  unfolding step on_start
  phase-begin q response t = rw (execute-waiting q t)

  shown-Reads :
      (r c : ℕ) (id : String) (t : State R s.M)
      → Reads r c id t
      → (shown_phase s t ≡ t.phase) × (shown_error s t ≡ none)
  unfolding shown_phase shown_error
  shown-Reads r c id t v = ground arith

  shown-execute :
      (q : ExecutionRequest) (t : State R s.M) → shown_phase s (execute s q t) ≡ starting
  unfolding shown_phase execute
  shown-execute q t = rw (s.mutate_is_pending (s.reset t.start))

  -- Before its start request is answered a call of `execute` shows the phase `starting`; while it
  -- then reads its stream, the page shows the last active status that the stream sent, or else that
  -- of the start's answer, or else `queued`, and it shows no error and no result.
  pub execute-phase :
      (q : ExecutionRequest) (response : ExecutionResponse) (es : List (StreamEvent R))
      (t : State R s.M)
      → All IsOngoing es
      → let r = length t.runs in
        let u = steps s (execute_called q ∷ start_succeeded r response ∷ reading r es) t in
        (shown_phase s (step s (execute_called q) t) ≡ starting)
        × (shown_phase s u ≡ last_active (get_or (active_phase response.status) queued) es)
        × (shown_error s u ≡ none)
        × (u.result ≡ none)
  unfolding steps step
  execute-phase q response es t h =
      let (reads, last) =
        phase-reading (length t.runs) _ _ es (begin q response t) (begin-Reads q response t) h in
      let (shown, error) = shown-Reads _ _ _ _ reads in
      (
        shown-execute q t,
        shown ∙ last ∙ ap (λ p. last_active p es) (phase-begin q response t),
        error,
        reads.no_result,
      )
