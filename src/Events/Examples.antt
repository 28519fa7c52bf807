-- ===== src/Events/Examples.antt =====
-- Runs of the event browser's helpers.
use integr8s_code.Base.{◌≡◌, refl, ◌∷◌, [], some, none, codes}
use integr8s_code.Api.{EventType, value}
use integr8s_code.Formatters.{title_unit}
use integr8s_code.Events.{EventFilter, get_event_type_color, get_active_filter_summary}

abbrev filters : EventFilter
filters = record {
  event_types = some (EventType.pod_failed ∷ []);
  aggregate_id = none;
  user_id = some [];
  start_time = none;
  end_time = none;
  service_name = some (codes "worker");
  search_text = none;
}

summary-run : get_active_filter_summary filters ≡ codes "Event Types" ∷ codes "Service Name" ∷ []
unfolding get_active_filter_summary title_unit
summary-run = refl

color-run : get_event_type_color (value EventType.pod_failed) ≡ "text-danger"
unfolding get_event_type_color value
color-run = refl
