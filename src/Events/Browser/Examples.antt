-- ===== src/Events/Browser/Examples.antt =====
-- A session on the event browser's page.
use integr8s_code.Base.{ℕ, ◌≡◌, refl, true, false, some, List, [], ◌∷◌, ◌++◌, Text, codes}
use integr8s_code.Base.{filter}
use integr8s_code.Events.{EventFilter}
use integr8s_code.Events.Browser.{
  ExportFormat, Event, delete_event, replay, initial, no_filters, browse_request, steps,
  filters_edited, apply_clicked, clear_clicked, paged, delete_clicked, deleted, replay_clicked,
  details_replay_clicked, dialog_closed,
}
use integr8s_code.Events.Browser.Query.{asked, browse_request-steps}
use integr8s_code.Events.Browser.Confirmed.{is_final, steps-orders}

abbrev url_of : ExportFormat → EventFilter → Text
url_of format filters = codes "/api/v1/admin/events/export/csv"

abbrev by_user : EventFilter
by_user = record no_filters { user_id = some (codes "7") }

abbrev before : List (Event ℕ)
before = paged 3 25 ∷ filters_edited by_user ∷ []

abbrev after : List (Event ℕ)
after = filters_edited no_filters ∷ paged 2 25 ∷ dialog_closed ∷ []

browse_request-steps_example :
    (browse_request (steps url_of (before ++ apply_clicked ∷ after) initial).0
      ≡ asked by_user (2, 25))
    × (browse_request (steps url_of (before ++ clear_clicked ∷ after) initial).0
        ≡ asked no_filters (2, 25))
unfolding steps
browse_request-steps_example = browse_request-steps url_of before after initial refl

abbrev clicks : List (Event ℕ)
clicks =
    delete_clicked (codes "a") false
    ∷ replay_clicked (codes "b") true false
    ∷ delete_clicked (codes "c") true
    ∷ deleted
    ∷ replay_clicked (codes "d") false false
    ∷ details_replay_clicked (codes "e") true
    ∷ []

steps-orders_example :
    filter is_final (steps url_of clicks initial).1
    ≡ delete_event (codes "c") ∷ replay (codes "e" ∷ []) false ∷ []
steps-orders_example = steps-orders url_of clicks initial
