-- ===== src/Notifications/Examples.antt =====
-- Runs of the notification stream and its icons.
use integr8s_code.Base.{ℕ, true, false, List, [], ◌∷◌}
use integr8s_code.Notifications.{
  Event, initial, steps, connect_called, stream_yielded, stream_failed,
}
use integr8s_code.Notifications.Laws.{IsCurrent, steps-IsCurrent}

abbrev events : List (Event ℕ)
events =
    connect_called
    ∷ stream_yielded 0 true 5
    ∷ connect_called
    ∷ stream_failed 0
    ∷ stream_yielded 1 false 6
    ∷ []

steps-IsCurrent_example : IsCurrent (steps events initial)
steps-IsCurrent_example = steps-IsCurrent events
