-- ===== src/Events/Replay.antt =====
-- The banner that follows a replay: the script of
-- frontend/src/components/admin/events/ReplayProgressBanner.svelte, over its event stream.
pub mod Following
mod Examples
use integr8s_code.Base.{
  ℕ, Bool, true, false, Option, none, some, List, [], ◌∷◌, ◌++◌, if◌then◌else◌, Text, codes,
  decimal_text,
}
use integr8s_code.Sse.Connection.{Decoder, Payload, json, raw, StreamEvent}
use integr8s_code.Sse.Reconnect.{Options, Round, Action, connect, event, sleep, Status, stream}

pub data ReplayStatus : Type 0 where
  preview scheduled running completed failed : ReplayStatus

-- The fields of a session that the script reads; an error is its text.
pub record Session : Type 0 where
  pub status : ReplayStatus
  pub replayed_events : ℕ
  pub errors : Option (List Text)

pub data Effect : Type 0 where
  success error : Text → Effect
  warn_connection : Effect

-- `errors?.[0]?.error || 'Unknown error'`
unfoldable pub first_error : Option (List Text) → Text
first_error (some ((c ∷ s) ∷ errors)) = c ∷ s
first_error errors = codes "Unknown error"

unfoldable pub announce_as : ReplayStatus → Session → List Effect
unfolding first_error
announce_as completed s =
    success (
      codes "Replay completed! Processed "
      ++ (decimal_text s.replayed_events ++ codes " events successfully."))
    ∷ []
announce_as ReplayStatus.failed s = error (codes "Replay failed: " ++ first_error s.errors) ∷ []
announce_as _ s = []

unfoldable pub announce : Session → List Effect
unfolding announce_as
announce s = announce_as s.status s

-- What `follow` passes to the stream, besides the session's path.
abbrev pub options : Options
options = record { default_retry_delay = none; max_retry_attempts = some 3; max_retry_delay = none }

-- The session that the banner shows, and what has been said on the way.
pub record Banner (J : Type 0) : Type 0 where
  pub session : Option (Payload J)
  pub effects : List Effect

module _ (d : Decoder) (view : d.J → Session) where
  -- What the stream yields is shown; data that is no JSON has no status.
  unfoldable pub shown : Payload d.J → List Effect
  unfolding announce
  shown (json j) = announce (view j)
  shown (raw text) = []

  -- Where the stream's loop is at an event with data, `for await` takes it; where it reports a
  -- failure, `onSseError` logs it while the banner is open.
  unfoldable pub take : (is_open : Bool) → Action d.J → Banner d.J → Banner d.J
  unfolding shown
  take is_open (event e) b = elim e.payload [
    | some p ↦ record { session = some p; effects = b.effects ++ shown p }
    | none ↦ b
  ]
  take is_open Action.failed b =
      if is_open then record b { effects = b.effects ++ warn_connection ∷ [] } else b
  take is_open (connect _) b = b
  take is_open (sleep _) b = b

  unfoldable pub take_all : (is_open : Bool) → List (Action d.J) → Banner d.J → Banner d.J
  unfolding take
  take_all is_open [] b = b
  take_all is_open (a ∷ acts) b = take_all is_open acts (take is_open a b)

  -- `follow`, and how its stream stands.
  unfoldable pub follow : (is_open : Bool) → List Round → Banner d.J × Status
  unfolding take_all stream
  follow is_open rs =
      let (acts, status) = stream d options rs in
      (take_all is_open acts (record { session = none; effects = [] }), status)
