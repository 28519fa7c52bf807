-- ===== src/Events/Replay/Following.antt =====
-- The banner ends whatever the network does, and shows what the server sent last.
use integr8s_code.Base.{
  ℕ, ◌+◌, ◌≤◌, ◌<◌, ◌≡◌, Bool, true, false, Option, some, List, [], ◌∷◌, ◌++◌, length, filter,
}
use integr8s_code.Sse.Connection.{Decoder, Payload, StreamEvent, yielded}
use integr8s_code.Sse.Reconnect.{Round, Action, event, going, stream}
use integr8s_code.Sse.Bounds.{Outcome}
use integr8s_code.Events.Replay.{Effect, warn_connection, Banner, Session, shown, options}

abbrev pub is_toast : Effect → Bool
is_toast warn_connection = false
is_toast _ = true

abbrev pub is_warning : Effect → Bool
is_warning warn_connection = true
is_warning _ = false

module _ (d : Decoder) where
  -- A loop that goes on after its rounds has had fewer than the limit.
  abbrev Survived : ℕ → ℕ → List Round → Outcome d → Type 0
  Survived k n rs out = out.1 ≡ going → n + length rs < k

  abbrev events_of : List (Action d.J) → List (StreamEvent d.J)
  events_of [] = []
  events_of (event e ∷ acts) = e ∷ events_of acts
  events_of (_ ∷ acts) = events_of acts

  abbrev pub later : {A : Type 0} → Option A → List A → Option A
  later x [] = x
  later x (y ∷ ys) = later (some y) ys

  -- What the stream yields over all its connections.
  abbrev pub yields : List Round → List (Payload d.J)
  yields rs = yielded d (events_of (stream d options rs).0)

  module _ (view : d.J → Session) where
    abbrev pub told : List (Payload d.J) → List Effect
    told [] = []
    told (p ∷ ps) = shown d view p ++ told ps

    -- What has been said and shown after a stretch of the stream.
    record IsTold (ps : List (Payload d.J)) (n : ℕ) (b c : Banner d.J) : Type 0 where
      pub session : c.session ≡ later b.session ps
      pub toasts : filter is_toast c.effects ≡ filter is_toast b.effects ++ told ps
      pub warnings : length (filter is_warning c.effects) ≤ length (filter is_warning b.effects) + n
