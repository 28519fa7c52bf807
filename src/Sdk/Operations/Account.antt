-- ===== src/Sdk/Operations/Account.antt =====
-- The operations on signing in and notifications, in frontend/src/lib/api/sdk.gen.ts.
use integr8s_code.Base.{List, [], ◌∷◌}
use integr8s_code.Sdk.Endpoints.{Endpoint, form, json, plain, event_stream}

abbrev pub login_api_v1_auth_login_post : Endpoint
login_api_v1_auth_login_post = form "loginApiV1AuthLoginPost" "POST" "/api/v1/auth/login"

abbrev pub register_api_v1_auth_register_post : Endpoint
register_api_v1_auth_register_post =
    json "registerApiV1AuthRegisterPost" "POST" "/api/v1/auth/register"

abbrev pub get_current_user_profile_api_v1_auth_me_get : Endpoint
get_current_user_profile_api_v1_auth_me_get =
    plain "getCurrentUserProfileApiV1AuthMeGet" "GET" "/api/v1/auth/me"

abbrev pub logout_api_v1_auth_logout_post : Endpoint
logout_api_v1_auth_logout_post = plain "logoutApiV1AuthLogoutPost" "POST" "/api/v1/auth/logout"

abbrev pub liveness_api_v1_health_live_get : Endpoint
liveness_api_v1_health_live_get = plain "livenessApiV1HealthLiveGet" "GET" "/api/v1/health/live"

abbrev pub notification_stream_api_v1_events_notifications_stream_get : Endpoint
notification_stream_api_v1_events_notifications_stream_get =
    event_stream "notificationStreamApiV1EventsNotificationsStreamGet" "GET"
      "/api/v1/events/notifications/stream"

abbrev pub get_notifications_api_v1_notifications_get : Endpoint
get_notifications_api_v1_notifications_get =
    plain "getNotificationsApiV1NotificationsGet" "GET" "/api/v1/notifications"

abbrev pub mark_notification_read_api_v1_notifications_notification_id_read_put : Endpoint
mark_notification_read_api_v1_notifications_notification_id_read_put =
    plain "markNotificationReadApiV1NotificationsNotificationIdReadPut" "PUT"
      "/api/v1/notifications/{notification_id}/read"

abbrev pub mark_all_read_api_v1_notifications_mark_all_read_post : Endpoint
mark_all_read_api_v1_notifications_mark_all_read_post =
    plain "markAllReadApiV1NotificationsMarkAllReadPost" "POST"
      "/api/v1/notifications/mark-all-read"

abbrev pub get_unread_count_api_v1_notifications_unread_count_get : Endpoint
get_unread_count_api_v1_notifications_unread_count_get =
    plain "getUnreadCountApiV1NotificationsUnreadCountGet" "GET"
      "/api/v1/notifications/unread-count"

abbrev pub delete_notification_api_v1_notifications_notification_id_delete : Endpoint
delete_notification_api_v1_notifications_notification_id_delete =
    plain "deleteNotificationApiV1NotificationsNotificationIdDelete" "DELETE"
      "/api/v1/notifications/{notification_id}"

abbrev pub operations : List Endpoint
operations =
    login_api_v1_auth_login_post ∷ register_api_v1_auth_register_post
    ∷ get_current_user_profile_api_v1_auth_me_get ∷ logout_api_v1_auth_logout_post
    ∷ liveness_api_v1_health_live_get ∷ notification_stream_api_v1_events_notifications_stream_get
    ∷ get_notifications_api_v1_notifications_get
    ∷ mark_notification_read_api_v1_notifications_notification_id_read_put
    ∷ mark_all_read_api_v1_notifications_mark_all_read_post
    ∷ get_unread_count_api_v1_notifications_unread_count_get
    ∷ delete_notification_api_v1_notifications_notification_id_delete ∷ []
