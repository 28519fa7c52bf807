-- ===== src/Events.antt =====
-- The event browser of the admin pages: frontend/src/lib/admin/events/eventTypes.ts.
pub mod Colors
pub mod Filters
pub mod Browser
pub mod Replay
mod Examples
use Prim.Native.String.{String}
use integr8s_code.Base.{
  ℕ, Bool, true, false, not, ◌||◌, Option, none, some, List, [], ◌∷◌, map, if◌then◌else◌, ltb,
  filter, length, Text, codes, is_empty, includes, strip_prefix,
}
use integr8s_code.Api.{EventType, value}
use integr8s_code.Formatters.{field_title}

-- The argument is the text of an event type.
unfoldable pub get_event_type_color : Text → String
unfolding includes
get_event_type_color event_type =
    if includes event_type (codes "_completed") || includes event_type (codes "_succeeded")
    then "text-success"
    else if includes event_type (codes "_failed") || includes event_type (codes "_timeout")
    then "text-danger"
    else if includes event_type (codes "_started") || includes event_type (codes "_running")
    then "text-info"
    else if includes event_type (codes "_requested")
    then "text-purple"
    else if includes event_type (codes "_created")
    then "text-indigo"
    else if includes event_type (codes "_terminated")
    then "text-orange"
    else "text-fg-muted"

-- `null` and `undefined` are both `none`.
pub record EventFilter : Type 0 where
  pub event_types : Option (List EventType)
  pub aggregate_id : Option Text
  pub user_id : Option Text
  pub start_time : Option Text
  pub end_time : Option Text
  pub service_name : Option Text
  pub search_text : Option Text

-- A key of the filter's schema.
pub data FilterKey : Type 0 where
  event_types_key aggregate_id_key user_id_key start_time_key end_time_key : FilterKey
  service_name_key search_text_key : FilterKey

abbrev pub filter_keys : List FilterKey
filter_keys =
    event_types_key ∷ aggregate_id_key ∷ user_id_key ∷ start_time_key ∷ end_time_key
    ∷ service_name_key ∷ search_text_key ∷ []

unfoldable pub key_name : FilterKey → Text
key_name event_types_key = codes "event_types"
key_name aggregate_id_key = codes "aggregate_id"
key_name user_id_key = codes "user_id"
key_name start_time_key = codes "start_time"
key_name end_time_key = codes "end_time"
key_name service_name_key = codes "service_name"
key_name search_text_key = codes "search_text"

has_items : Option (List EventType) → Bool
has_items none = false
has_items (some items) = ltb 0 (length items)

is_truthy : Option Text → Bool
is_truthy none = false
is_truthy (some s) = not (is_empty s)

-- The test of `activeFilterKeys` on the value of a key.
unfoldable pub is_active : EventFilter → FilterKey → Bool
unfolding has_items is_truthy
is_active filters event_types_key = has_items filters.event_types
is_active filters aggregate_id_key = is_truthy filters.aggregate_id
is_active filters user_id_key = is_truthy filters.user_id
is_active filters start_time_key = is_truthy filters.start_time
is_active filters end_time_key = is_truthy filters.end_time
is_active filters service_name_key = is_truthy filters.service_name
is_active filters search_text_key = is_truthy filters.search_text

unfoldable pub active_filter_keys : EventFilter → List FilterKey
unfolding filter is_active
active_filter_keys filters = filter (is_active filters) filter_keys

unfoldable pub has_active_filters : EventFilter → Bool
unfolding active_filter_keys
has_active_filters filters = ltb 0 (length (active_filter_keys filters))

unfoldable pub get_active_filter_count : EventFilter → ℕ
unfolding active_filter_keys
get_active_filter_count filters = length (active_filter_keys filters)

unfoldable pub get_active_filter_summary : EventFilter → List Text
unfolding active_filter_keys key_name field_title
get_active_filter_summary filters =
    map (λ key. field_title (key_name key)) (active_filter_keys filters)
