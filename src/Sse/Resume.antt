-- ===== src/Sse/Resume.antt =====
-- A new connection resumes behind the last event.
use integr8s_code.Base.{◌≡◌, ◌≢◌, false, Option, none, List, [], ◌∷◌, Text}
use integr8s_code.Sse.{Memory}
use integr8s_code.Sse.Connection.{Decoder, StreamEvent, Progress}
use integr8s_code.Sse.Reconnect.{Action, connect, event, failed, sleep}

module _ {J : Type 0} where
  abbrev pub last_id : Option Text → List (StreamEvent J) → Option Text
  last_id i [] = i
  last_id i (e ∷ es) = last_id e.id es

  -- Each connection sends the id that the last event in front of it carried.
  abbrev pub Resumes : Option Text → List (Action J) → Type 0
  Resumes i [] = Unit
  Resumes i (connect id ∷ acts) = (id ≡ i) × Resumes i acts
  Resumes i (event e ∷ acts) = Resumes e.id acts
  Resumes i (failed ∷ acts) = Resumes i acts
  Resumes i (sleep _ ∷ acts) = Resumes i acts

module _ (d : Decoder) (never : (j : d.J) → d.deliver j ≢ none) where
  -- What is remembered is the id of the last event.
  record Last (m : Memory) (p : Progress d.J) : Type 0 where
    fine : p.thrown ≡ false
    last : p.memory.last_event_id ≡ last_id m.last_event_id p.events
