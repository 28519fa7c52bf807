-- ===== src/Events/Browser.antt =====
-- The state of the event browser's page, the script of
-- frontend/src/routes/admin/events/+page.svelte: its filters, its page of the list and its dialog.
-- A confirmation's answer comes with the click that asks for it.
pub mod Query
pub mod Confirmed
mod Examples
use integr8s_code.Base.{
  ℕ, ◌*◌, Bool, true, false, not, ◌&&◌, Option, none, some, List, [], ◌∷◌, ◌++◌, if◌then◌else◌,
  is_empty, Text, codes, decimal,
}
use integr8s_code.Events.{EventFilter}

pub data ExportFormat : Type 0 where
  csv json : ExportFormat

-- `E` is a summary of an event, which the page only hands on.
pub record Preview (E : Type 0) : Type 0 where
  pub event_id : Text
  pub total_events : ℕ
  pub events_preview : List E

pub data Dialog (E : Type 0) : Type 0 where
  closed : Dialog E
  details : (event_id : Text) → Dialog E
  overview : (user_id : Text) → Dialog E
  preview : Preview E → Dialog E

pub record Page (E : Type 0) : Type 0 where
  pub filters : EventFilter
  pub applied : EventFilter
  pub show_filters : Bool
  pub dialog : Dialog E
  pub replay_session_id : Text
  pub page_size : ℕ
  pub page_index : ℕ

-- The fields of a replay's answer that the page takes.
pub record ReplayResponse (E : Type 0) : Type 0 where
  pub total_events : ℕ
  pub session_id : Option Text
  pub events_preview : Option (List E)

-- The body of the list's query.
pub record BrowseRequest : Type 0 where
  pub filters : EventFilter
  pub skip : ℕ
  pub limit : ℕ

pub data Effect : Type 0 where
  success info : Text → Effect
  refetch_list refetch_stats : Effect
  delete_event : (event_id : Text) → Effect
  replay : (event_ids : List Text) → (dry_run : Bool) → Effect
  open_window : (url : Text) → Effect

abbrev pub no_filters : EventFilter
no_filters = record {
  event_types = none;
  aggregate_id = none;
  user_id = none;
  start_time = none;
  end_time = none;
  service_name = none;
  search_text = none;
}

abbrev format_name : ExportFormat → Text
format_name csv = codes "csv"
format_name json = codes "json"

-- What the user and the API do; `replayed` is `onSuccess` of the call for that event.
pub data Event (E : Type 0) : Type 0 where
  filters_edited : EventFilter → Event E
  apply_clicked clear_clicked filters_toggled refresh_clicked dialog_closed banner_closed : Event E
  paged : (page_index page_size : ℕ) → Event E
  export_clicked : ExportFormat → Event E
  delete_clicked : (event_id : Text) → (confirmed : Bool) → Event E
  deleted : Event E
  replay_clicked : (event_id : Text) → (dry_run confirmed : Bool) → Event E
  details_replay_clicked : (event_id : Text) → (confirmed : Bool) → Event E
  replayed : (event_id : Text) → (dry_run : Bool) → ReplayResponse E → Event E
  details_clicked : (event_id : Text) → Event E
  user_clicked : (user_id : Text) → Event E

abbrev pub refresh : List Effect
refresh = refetch_list ∷ refetch_stats ∷ []

unfoldable pub delete_clicks : (event_id : Text) → (confirmed : Bool) → List Effect
delete_clicks event_id confirmed = if not confirmed then [] else delete_event event_id ∷ []

-- `replayEvent`: only a real replay asks.
unfoldable pub replay_event : (event_id : Text) → (dry_run confirmed : Bool) → List Effect
replay_event event_id dry_run confirmed =
    if not dry_run && not confirmed then [] else replay (event_id ∷ []) dry_run ∷ []

abbrev session_or_empty : Option Text → Text
session_or_empty none = []
session_or_empty (some id) = id

module _ {E : Type 0} where
  abbrev pub initial : Page E
  initial = record {
    filters = no_filters;
    applied = no_filters;
    show_filters = false;
    dialog = closed;
    replay_session_id = [];
    page_size = 10;
    page_index = 0;
  }

  -- The body that the list asks with.
  abbrev pub browse_request : Page E → BrowseRequest
  browse_request p = record {
    filters = p.applied;
    skip = p.page_index * p.page_size;
    limit = p.page_size;
  }

  -- The page's index is derived from `applied`: it is 0 again whenever that is assigned.
  unfoldable pub apply_filters : Page E → Page E
  apply_filters p = record p { applied = p.filters; page_index = 0 }

  unfoldable pub clear_filters : Page E → Page E
  unfolding apply_filters
  clear_filters p = apply_filters (record p { filters = no_filters })

  abbrev dry_run_shown : (event_id : Text) → ReplayResponse E → Page E → Page E × List Effect
  dry_run_shown event_id r p = elim r.events_preview [
    | some (e ∷ es) ↦ (
      record p {
        dialog = preview (record {
          event_id = event_id;
          total_events = r.total_events;
          events_preview = e ∷ es;
        });
      },
      [],
    )
    | some [] ↦ (p, would_replay)
    | none ↦ (p, would_replay)
  ]
    where
      would_replay : List Effect
      would_replay =
          info (
            codes "Dry run: "
            ++ (codes (decimal r.total_events) ++ codes " events would be replayed"))
          ∷ []

  unfoldable pub on_replayed :
      (event_id : Text) → (dry_run : Bool) → ReplayResponse E → Page E → Page E × List Effect
  on_replayed event_id true r p = dry_run_shown event_id r p
  on_replayed event_id false r p = (
    record p { replay_session_id = session_or_empty r.session_id },
    success (codes "Replay scheduled! Tracking progress...") ∷ [],
  )

  view_user : (user_id : Text) → Page E → Page E
  view_user user_id p = if is_empty user_id then p else record p { dialog = overview user_id }

  -- `url_of` is the client's `buildUrl` over what the query's schema takes from the filters.
  unfoldable pub export_events :
      (url_of : ExportFormat → EventFilter → Text) → ExportFormat → Page E → List Effect
  export_events url_of format p =
      open_window (url_of format p.applied)
      ∷ info (codes "Starting " ++ (format_name format ++ codes " export..."))
      ∷ []

  unfoldable pub step :
      (url_of : ExportFormat → EventFilter → Text) → Event E → Page E → Page E × List Effect
  unfolding apply_filters clear_filters delete_clicks replay_event on_replayed view_user
      export_events
  step url_of (filters_edited f) p = (record p { filters = f }, [])
  step url_of apply_clicked p = (apply_filters p, [])
  step url_of clear_clicked p = (clear_filters p, [])
  step url_of filters_toggled p = (record p { show_filters = not p.show_filters }, [])
  step url_of refresh_clicked p = (p, refresh)
  step url_of dialog_closed p = (record p { dialog = closed }, [])
  step url_of banner_closed p = (record p { replay_session_id = [] }, [])
  step url_of (paged index size) p = (record p { page_size = size; page_index = index }, [])
  step url_of (export_clicked format) p = (p, export_events url_of format p)
  step url_of (delete_clicked event_id confirmed) p = (p, delete_clicks event_id confirmed)
  step url_of deleted p = (p, success (codes "Event deleted successfully") ∷ refresh)
  step url_of (replay_clicked event_id dry_run confirmed) p =
      (p, replay_event event_id dry_run confirmed)
  step url_of (details_replay_clicked event_id confirmed) p =
      (record p { dialog = closed }, replay_event event_id false confirmed)
  step url_of (replayed event_id dry_run r) p = on_replayed event_id dry_run r p
  step url_of (details_clicked event_id) p = (record p { dialog = details event_id }, [])
  step url_of (user_clicked user_id) p = (view_user user_id p, [])

  -- The page after the events, and all that it did, in order.
  unfoldable pub steps :
      (url_of : ExportFormat → EventFilter → Text) → List (Event E) → Page E → Page E × List Effect
  unfolding step
  steps url_of [] p = (p, [])
  steps url_of (e ∷ es) p =
      let now = step url_of e p in let later = steps url_of es now.0 in (later.0, now.1 ++ later.1)
