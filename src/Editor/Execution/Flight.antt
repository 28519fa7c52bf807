-- ===== src/Editor/Execution/Flight.antt =====
-- A page that calls the class only while `isExecuting` is false keeps to one run, step by step.
use Prim.Native.String.{String}
use integr8s_code.Base.{
  ℕ, false≢true, ◌≡◌, ◌≢◌, inl, inr, refl, ◌∙◌, sym, some, List, [], ◌∷◌, length, get_elem?, arith,
  if◌then◌else◌,
}
use integr8s_code.Editor.Execution.{
  StartMutation, State, Event, waiting, following, execute_called, abort_called, reset_called,
  start_succeeded, start_failed, stream_yielded, stream_failed, stream_ended, ExecutionRequest,
  step, steps, initial, is_executing,
}
use integr8s_code.Editor.Execution.Runs.{live, weight-le-live, live_unique}
use integr8s_code.Editor.Execution.Invariant.{at_start_cases, at_stream_cases}
use integr8s_code.Editor.Execution.Single.{
  Resting, Starting, Reading, Single, resting, starting_up, reading, Allowed, AllAllowed,
  Starting-is_executing, Reading-is_executing, Resting-is_executing, execute-Starting,
  abort-Resting, reset-Resting, on_start-Reading, on_start_failure-Resting, on_event-Single,
  on_error-Reading, on_end-Resting,
}

module _ {R : Type 0} (s : StartMutation) where
  step-Resting : (e : Event R) (t : State R s.M) → Resting s t → Single s (step s e t)
  unfolding step
  step-Resting (execute_called q) t v =
      starting_up (length t.runs) q (s.reset t.start) (execute-Starting s q t v)
  step-Resting abort_called t v = resting (abort-Resting s t v)
  step-Resting reset_called t v = resting (reset-Resting s t v)
  step-Resting (start_succeeded r e) t v =
      at_start_cases s (Single s) (get_elem? t.runs r) _ t (resting v) (λ ticket q g.
        absurd (omega (arith, weight-le-live t.runs r (waiting ticket q) g, v.none_live)))
  step-Resting (start_failed r d) t v =
      at_start_cases s (Single s) (get_elem? t.runs r) _ t (resting v) (λ ticket q g.
        absurd (omega (arith, weight-le-live t.runs r (waiting ticket q) g, v.none_live)))
  step-Resting (stream_yielded r e) t v =
      at_stream_cases s (Single s) (get_elem? t.runs r) _ t (resting v)
        (λ c id g. absurd (omega (arith, weight-le-live t.runs r (following c id) g, v.none_live)))
  step-Resting (stream_failed r) t v =
      at_stream_cases s (Single s) (get_elem? t.runs r) _ t (resting v)
        (λ c id g. absurd (omega (arith, weight-le-live t.runs r (following c id) g, v.none_live)))
  step-Resting (stream_ended r) t v =
      at_stream_cases s (Single s) (get_elem? t.runs r) _ t (resting v)
        (λ c id g. absurd (omega (arith, weight-le-live t.runs r (following c id) g, v.none_live)))

  -- The run that an event finds live is the one that the state has.
  Starting-waiting :
      (r i ticket : ℕ) (q p : ExecutionRequest) (m : s.M) (t : State R s.M)
      → Starting s r q m t
      → get_elem? t.runs i ≡ some (waiting ticket p)
      → Starting s i p m t × (ticket ≡ (s.mutate m).0)
  Starting-waiting r i ticket q p m t v g =
      ground (arith, live_unique t.runs r i (waiting (s.mutate m).0 q) (waiting ticket p))

  Starting-following :
      (r i c : ℕ) (id : String) (q : ExecutionRequest) (m : s.M) (t : State R s.M)
      → Starting s r q m t
      → get_elem? t.runs i ≢ some (following c id)
  Starting-following r i c id q m t v g =
      ground (arith, live_unique t.runs r i (waiting (s.mutate m).0 q) (following c id))

  Reading-following :
      (r i c d : ℕ) (id name : String) (t : State R s.M)
      → Reading s r c id t
      → get_elem? t.runs i ≡ some (following d name)
      → Reading s i d name t
  Reading-following r i c d id name t v g =
      ground (arith, live_unique t.runs r i (following c id) (following d name))

  Reading-waiting :
      (r i c ticket : ℕ) (id : String) (q : ExecutionRequest) (t : State R s.M)
      → Reading s r c id t
      → get_elem? t.runs i ≢ some (waiting ticket q)
  Reading-waiting r i c ticket id q t v g =
      ground (arith, live_unique t.runs r i (following c id) (waiting ticket q))

  step-Starting :
      (r : ℕ) (q : ExecutionRequest) (m : s.M) (e : Event R) (t : State R s.M)
      → Allowed s e t
      → Starting s r q m t
      → Single s (step s e t)
  unfolding step
  step-Starting r q m (execute_called p) t h v =
      absurd (false≢true (sym h ∙ Starting-is_executing s r q m t v))
  step-Starting r q m abort_called t h v =
      absurd (false≢true (sym h ∙ Starting-is_executing s r q m t v))
  step-Starting r q m reset_called t h v =
      absurd (false≢true (sym h ∙ Starting-is_executing s r q m t v))
  step-Starting r q m (start_succeeded i e) t h v =
      at_start_cases s (Single s) (get_elem? t.runs i) _ t (starting_up r q m v) (λ ticket p g.
        let (w, eq) = Starting-waiting r i ticket q p m t v g in
        rw eq (reading i (length t.aborted) e.execution_id (on_start-Reading s i p m e t w)))
  step-Starting r q m (start_failed i d) t h v =
      at_start_cases s (Single s) (get_elem? t.runs i) _ t (starting_up r q m v) (λ ticket p g.
        let (w, eq) = Starting-waiting r i ticket q p m t v g in
        rw eq (resting (on_start_failure-Resting s i p m d t w)))
  step-Starting r q m (stream_yielded i e) t h v =
      at_stream_cases s (Single s) (get_elem? t.runs i) _ t (starting_up r q m v)
        (λ c id g. absurd (Starting-following r i c id q m t v g))
  step-Starting r q m (stream_failed i) t h v =
      at_stream_cases s (Single s) (get_elem? t.runs i) _ t (starting_up r q m v)
        (λ c id g. absurd (Starting-following r i c id q m t v g))
  step-Starting r q m (stream_ended i) t h v =
      at_stream_cases s (Single s) (get_elem? t.runs i) _ t (starting_up r q m v)
        (λ c id g. absurd (Starting-following r i c id q m t v g))

  step-Reading :
      (r c : ℕ) (id : String) (e : Event R) (t : State R s.M)
      → Allowed s e t
      → Reading s r c id t
      → Single s (step s e t)
  unfolding step
  step-Reading r c id (execute_called p) t h v =
      absurd (false≢true (sym h ∙ Reading-is_executing s r c id t v))
  step-Reading r c id abort_called t h v =
      absurd (false≢true (sym h ∙ Reading-is_executing s r c id t v))
  step-Reading r c id reset_called t h v =
      absurd (false≢true (sym h ∙ Reading-is_executing s r c id t v))
  step-Reading r c id (start_succeeded i e) t h v =
      at_start_cases s (Single s) (get_elem? t.runs i) _ t (reading r c id v)
        (λ ticket p g. absurd (Reading-waiting r i c ticket id p t v g))
  step-Reading r c id (start_failed i d) t h v =
      at_start_cases s (Single s) (get_elem? t.runs i) _ t (reading r c id v)
        (λ ticket p g. absurd (Reading-waiting r i c ticket id p t v g))
  step-Reading r c id (stream_yielded i e) t h v =
      at_stream_cases s (Single s) (get_elem? t.runs i) _ t (reading r c id v) (λ d name g.
        elim (on_event-Single s i d name e t (Reading-following r i c d id name t v g)) [
          | inl w ↦ reading i d name w
          | inr w ↦ resting w
        ])
  step-Reading r c id (stream_failed i) t h v =
      at_stream_cases s (Single s) (get_elem? t.runs i) _ t (reading r c id v) (λ d name g.
        reading i d name (on_error-Reading s i d name t (Reading-following r i c d id name t v g)))
  step-Reading r c id (stream_ended i) t h v =
      at_stream_cases s (Single s) (get_elem? t.runs i) _ t (reading r c id v) (λ d name g.
        resting (on_end-Resting s i d name t (Reading-following r i c d id name t v g)))

  step-Single : (e : Event R) (t : State R s.M) → Allowed s e t → Single s t → Single s (step s e t)
  step-Single e t h (resting v) = step-Resting e t v
  step-Single e t h (starting_up r q m v) = step-Starting r q m e t h v
  step-Single e t h (reading r c id v) = step-Reading r c id e t h v

  steps_from-Single :
      (es : List (Event R)) (t : State R s.M)
      → AllAllowed s es t
      → Single s t
      → Single s (steps s es t)
  unfolding steps
  steps_from-Single [] t h v = v
  steps_from-Single (e ∷ es) t h v = steps_from-Single es (step s e t) h.1 (step-Single e t h.0 v)

  initial-Single : Single s (initial {R = R} s)
  unfolding initial
  initial-Single = resting (record { phase = refl; settled = s.fresh_is_pending; none_live = refl })

  Single-is_executing :
      (t : State R s.M) → Single s t → live t.runs ≡ (if is_executing s t then 1 else 0)
  Single-is_executing t (resting v) = rw (Resting-is_executing s t v) v.none_live
  Single-is_executing t (starting_up r q m v) = rw (Starting-is_executing s r q m t v) v.one_live
  Single-is_executing t (reading r c id v) = rw (Reading-is_executing s r c id t v) v.one_live

  -- If the page calls `execute`, `abort` and `reset` only while `isExecuting` is false, then after
  -- any such events exactly one call of `execute` has not returned while `isExecuting` is true, and
  -- none while it is false.
  pub live-steps :
      (es : List (Event R))
      → AllAllowed s es (initial s)
      → let t = steps s es (initial s) in live t.runs ≡ (if is_executing s t then 1 else 0)
  live-steps es h = Single-is_executing _ (steps_from-Single es (initial s) h initial-Single)
