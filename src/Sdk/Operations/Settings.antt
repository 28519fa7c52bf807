-- ===== src/Sdk/Operations/Settings.antt =====
-- The operations on a user's settings, in frontend/src/lib/api/sdk.gen.ts.
use integr8s_code.Base.{List, [], ◌∷◌}
use integr8s_code.Sdk.Endpoints.{Endpoint, json, plain}

abbrev pub get_user_settings_api_v1_user_settings_get : Endpoint
get_user_settings_api_v1_user_settings_get =
    plain "getUserSettingsApiV1UserSettingsGet" "GET" "/api/v1/user/settings/"

abbrev pub update_user_settings_api_v1_user_settings_put : Endpoint
update_user_settings_api_v1_user_settings_put =
    json "updateUserSettingsApiV1UserSettingsPut" "PUT" "/api/v1/user/settings/"

abbrev pub update_theme_api_v1_user_settings_theme_put : Endpoint
update_theme_api_v1_user_settings_theme_put =
    json "updateThemeApiV1UserSettingsThemePut" "PUT" "/api/v1/user/settings/theme"

abbrev pub update_notification_settings_api_v1_user_settings_notifications_put : Endpoint
update_notification_settings_api_v1_user_settings_notifications_put =
    json "updateNotificationSettingsApiV1UserSettingsNotificationsPut" "PUT"
      "/api/v1/user/settings/notifications"

abbrev pub update_editor_settings_api_v1_user_settings_editor_put : Endpoint
update_editor_settings_api_v1_user_settings_editor_put =
    json "updateEditorSettingsApiV1UserSettingsEditorPut" "PUT" "/api/v1/user/settings/editor"

abbrev pub get_settings_history_api_v1_user_settings_history_get : Endpoint
get_settings_history_api_v1_user_settings_history_get =
    plain "getSettingsHistoryApiV1UserSettingsHistoryGet" "GET" "/api/v1/user/settings/history"

abbrev pub restore_settings_api_v1_user_settings_restore_post : Endpoint
restore_settings_api_v1_user_settings_restore_post =
    json "restoreSettingsApiV1UserSettingsRestorePost" "POST" "/api/v1/user/settings/restore"

abbrev pub update_custom_setting_api_v1_user_settings_custom_key_put : Endpoint
update_custom_setting_api_v1_user_settings_custom_key_put =
    json "updateCustomSettingApiV1UserSettingsCustomKeyPut" "PUT"
      "/api/v1/user/settings/custom/{key}"

abbrev pub operations : List Endpoint
operations =
    get_user_settings_api_v1_user_settings_get ∷ update_user_settings_api_v1_user_settings_put
    ∷ update_theme_api_v1_user_settings_theme_put
    ∷ update_notification_settings_api_v1_user_settings_notifications_put
    ∷ update_editor_settings_api_v1_user_settings_editor_put
    ∷ get_settings_history_api_v1_user_settings_history_get
    ∷ restore_settings_api_v1_user_settings_restore_post
    ∷ update_custom_setting_api_v1_user_settings_custom_key_put ∷ []
