-- ===== src/Events/Replay/Examples.antt =====
-- A replay that the banner follows through a lost connection.
use integr8s_code.Base.{
  ℕ, ◌==◌, if◌then◌else◌, ◌≡◌, refl, true, false, none, some, List, [], ◌∷◌, ◌++◌, codes, ℤ, pos,
  decimal_text,
}
use integr8s_code.Sse.{lf, parse_int}
use integr8s_code.Sse.Connection.{Decoder, json, read_all}
use integr8s_code.Sse.Reconnect.{Round, refused, streamed, Status, stream}
use integr8s_code.Events.Replay.{
  Session, ReplayStatus, success, warn_connection, running, completed, announce, announce_as, shown,
  take, take_all, follow,
}

-- The status is the number of replayed events, and 2 are all of them.
abbrev numbers : Decoder
numbers = record { J = ℤ; parse = parse_int; deliver = λ j. some j }

abbrev session_with : ReplayStatus → ℕ → Session
session_with status n = record { status = status; replayed_events = n; errors = none }

abbrev view : ℤ → Session
view (pos n) = if n == 2 then session_with completed n else session_with running n
view _ = session_with running 0

abbrev rounds : List Round
rounds =
    record { aborted = false; attempt = streamed ((codes "data: 1" ++ lf ∷ lf ∷ []) ∷ []) true }
    ∷ record { aborted = false; attempt = refused }
    ∷ record {
      aborted = false;
      attempt =
          streamed ((codes "data: 1" ++ lf ∷ lf ∷ codes "data: 2" ++ lf ∷ lf ∷ []) ∷ []) false;
    }
    ∷ []

follow-run : follow numbers view true rounds ≡ (
  record {
    session = some (json (pos 2));
    effects =
        warn_connection
        ∷ warn_connection
        ∷ success (codes "Replay completed! Processed 2 events successfully.")
        ∷ [];
  },
  Status.ended,
)
unfolding follow stream take_all take shown announce announce_as read_all parse_int decimal_text
follow-run = refl
