-- ===== src/Sdk/Operations/Admin.antt =====
-- The operations on the admin pages' events, executions and settings, in frontend/src/lib/api/sdk.gen.ts.
use integr8s_code.Base.{List, [], ◌∷◌}
use integr8s_code.Sdk.Endpoints.{Endpoint, json, plain, event_stream}

abbrev pub browse_events_api_v1_admin_events_browse_post : Endpoint
browse_events_api_v1_admin_events_browse_post =
    json "browseEventsApiV1AdminEventsBrowsePost" "POST" "/api/v1/admin/events/browse"

abbrev pub get_event_stats_api_v1_admin_events_stats_get : Endpoint
get_event_stats_api_v1_admin_events_stats_get =
    plain "getEventStatsApiV1AdminEventsStatsGet" "GET" "/api/v1/admin/events/stats"

abbrev pub export_events_api_v1_admin_events_export_export_format_get : Endpoint
export_events_api_v1_admin_events_export_export_format_get =
    plain "exportEventsApiV1AdminEventsExportExportFormatGet" "GET"
      "/api/v1/admin/events/export/{export_format}"

abbrev pub delete_event_api_v1_admin_events_event_id_delete : Endpoint
delete_event_api_v1_admin_events_event_id_delete =
    plain "deleteEventApiV1AdminEventsEventIdDelete" "DELETE" "/api/v1/admin/events/{event_id}"

abbrev pub get_event_detail_api_v1_admin_events_event_id_get : Endpoint
get_event_detail_api_v1_admin_events_event_id_get =
    plain "getEventDetailApiV1AdminEventsEventIdGet" "GET" "/api/v1/admin/events/{event_id}"

abbrev pub replay_events_api_v1_admin_events_replay_post : Endpoint
replay_events_api_v1_admin_events_replay_post =
    json "replayEventsApiV1AdminEventsReplayPost" "POST" "/api/v1/admin/events/replay"

abbrev pub stream_replay_status_api_v1_admin_events_replay_session_id_status_get : Endpoint
stream_replay_status_api_v1_admin_events_replay_session_id_status_get =
    event_stream "streamReplayStatusApiV1AdminEventsReplaySessionIdStatusGet" "GET"
      "/api/v1/admin/events/replay/{session_id}/status"

abbrev pub list_executions_api_v1_admin_executions_get : Endpoint
list_executions_api_v1_admin_executions_get =
    plain "listExecutionsApiV1AdminExecutionsGet" "GET" "/api/v1/admin/executions/"

abbrev pub update_priority_api_v1_admin_executions_execution_id_priority_put : Endpoint
update_priority_api_v1_admin_executions_execution_id_priority_put =
    json "updatePriorityApiV1AdminExecutionsExecutionIdPriorityPut" "PUT"
      "/api/v1/admin/executions/{execution_id}/priority"

abbrev pub get_queue_status_api_v1_admin_executions_queue_get : Endpoint
get_queue_status_api_v1_admin_executions_queue_get =
    plain "getQueueStatusApiV1AdminExecutionsQueueGet" "GET" "/api/v1/admin/executions/queue"

abbrev pub get_system_settings_api_v1_admin_settings_get : Endpoint
get_system_settings_api_v1_admin_settings_get =
    plain "getSystemSettingsApiV1AdminSettingsGet" "GET" "/api/v1/admin/settings/"

abbrev pub update_system_settings_api_v1_admin_settings_put : Endpoint
update_system_settings_api_v1_admin_settings_put =
    json "updateSystemSettingsApiV1AdminSettingsPut" "PUT" "/api/v1/admin/settings/"

abbrev pub reset_system_settings_api_v1_admin_settings_reset_post : Endpoint
reset_system_settings_api_v1_admin_settings_reset_post =
    plain "resetSystemSettingsApiV1AdminSettingsResetPost" "POST" "/api/v1/admin/settings/reset"

abbrev pub operations : List Endpoint
operations =
    browse_events_api_v1_admin_events_browse_post ∷ get_event_stats_api_v1_admin_events_stats_get
    ∷ export_events_api_v1_admin_events_export_export_format_get
    ∷ delete_event_api_v1_admin_events_event_id_delete
    ∷ get_event_detail_api_v1_admin_events_event_id_get
    ∷ replay_events_api_v1_admin_events_replay_post
    ∷ stream_replay_status_api_v1_admin_events_replay_session_id_status_get
    ∷ list_executions_api_v1_admin_executions_get
    ∷ update_priority_api_v1_admin_executions_execution_id_priority_put
    ∷ get_queue_status_api_v1_admin_executions_queue_get
    ∷ get_system_settings_api_v1_admin_settings_get
    ∷ update_system_settings_api_v1_admin_settings_put
    ∷ reset_system_settings_api_v1_admin_settings_reset_post ∷ []
