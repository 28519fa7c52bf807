-- ===== src/Events/Browser/Confirmed.antt =====
-- What the page deletes and replays.
use integr8s_code.Base.{
  ◌≡◌, refl, ap₂, ◌∙◌, Bool, true, false, List, [], ◌∷◌, ◌++◌, Text, not, arith,
}
use integr8s_code.Base.{filter, filter-append}
use integr8s_code.Events.{EventFilter}
use integr8s_code.Events.Browser.{
  ExportFormat, Page, Event, Effect, ReplayResponse, delete_event, replay, on_replayed,
  delete_clicks, replay_event, export_events, step, steps, delete_clicked, replay_clicked,
  details_replay_clicked, replayed,
}

-- What cannot be undone: a deletion, and a replay that is no dry run.
abbrev pub is_final : Effect → Bool
is_final (delete_event _) = true
is_final (replay _ dry_run) = not dry_run
is_final _ = false

-- What the user confirmed, click by click.
abbrev pub ordered : {E : Type 0} → Event E → List Effect
ordered (delete_clicked event_id true) = delete_event event_id ∷ []
ordered (replay_clicked event_id false true) = replay (event_id ∷ []) false ∷ []
ordered (details_replay_clicked event_id true) = replay (event_id ∷ []) false ∷ []
ordered _ = []

abbrev pub orders : {E : Type 0} → List (Event E) → List Effect
orders [] = []
orders (e ∷ es) = ordered e ++ orders es

module _ {E : Type 0} (url_of : ExportFormat → EventFilter → Text) where
  filter-on_replayed :
      (event_id : Text) (dry_run : Bool) (r : ReplayResponse E) (p : Page E)
      → filter is_final (on_replayed event_id dry_run r p).1 ≡ []
  unfolding filter on_replayed
  filter-on_replayed event_id dry_run r p = ground arith

  filter-step : (e : Event E) (p : Page E) → filter is_final (step url_of e p).1 ≡ ordered e
  unfolding filter step delete_clicks replay_event export_events
  filter-step (delete_clicked event_id true) p = refl
  filter-step (delete_clicked event_id false) p = refl
  filter-step (replay_clicked event_id true confirmed) p = refl
  filter-step (replay_clicked event_id false true) p = refl
  filter-step (replay_clicked event_id false false) p = refl
  filter-step (details_replay_clicked event_id true) p = refl
  filter-step (details_replay_clicked event_id false) p = refl
  filter-step (replayed event_id dry_run r) p = filter-on_replayed event_id dry_run r p
  filter-step _ p = refl

  -- Whatever happens on the page, the deletions and the replays that are no dry run are exactly those
  -- that the user confirmed, in the order of the clicks.
  pub steps-orders :
      (es : List (Event E)) (p : Page E) → filter is_final (steps url_of es p).1 ≡ orders es
  unfolding steps filter
  steps-orders [] p = refl
  steps-orders (e ∷ es) p =
      filter-append is_final (step url_of e p).1 (steps url_of es (step url_of e p).0).1
      ∙ ap₂ (λ now later. now ++ later) (filter-step e p) (steps-orders es (step url_of e p).0)
