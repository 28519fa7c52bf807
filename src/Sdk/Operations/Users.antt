-- ===== src/Sdk/Operations/Users.antt =====
-- The operations on the admin pages' users and rate limits, in frontend/src/lib/api/sdk.gen.ts.
use integr8s_code.Base.{List, [], ◌∷◌}
use integr8s_code.Sdk.Endpoints.{Endpoint, json, plain}

abbrev pub get_default_rate_limit_rules_api_v1_admin_rate_limits_defaults_get : Endpoint
get_default_rate_limit_rules_api_v1_admin_rate_limits_defaults_get =
    plain "getDefaultRateLimitRulesApiV1AdminRateLimitsDefaultsGet" "GET"
      "/api/v1/admin/rate-limits/defaults"

abbrev pub get_user_rate_limits_api_v1_admin_rate_limits_user_id_get : Endpoint
get_user_rate_limits_api_v1_admin_rate_limits_user_id_get =
    plain "getUserRateLimitsApiV1AdminRateLimitsUserIdGet" "GET"
      "/api/v1/admin/rate-limits/{user_id}"

abbrev pub update_user_rate_limits_api_v1_admin_rate_limits_user_id_put : Endpoint
update_user_rate_limits_api_v1_admin_rate_limits_user_id_put =
    json "updateUserRateLimitsApiV1AdminRateLimitsUserIdPut" "PUT"
      "/api/v1/admin/rate-limits/{user_id}"

abbrev pub reset_user_rate_limits_api_v1_admin_rate_limits_user_id_reset_post : Endpoint
reset_user_rate_limits_api_v1_admin_rate_limits_user_id_reset_post =
    plain "resetUserRateLimitsApiV1AdminRateLimitsUserIdResetPost" "POST"
      "/api/v1/admin/rate-limits/{user_id}/reset"

abbrev pub list_users_api_v1_admin_users_get : Endpoint
list_users_api_v1_admin_users_get = plain "listUsersApiV1AdminUsersGet" "GET" "/api/v1/admin/users/"

abbrev pub create_user_api_v1_admin_users_post : Endpoint
create_user_api_v1_admin_users_post =
    json "createUserApiV1AdminUsersPost" "POST" "/api/v1/admin/users/"

abbrev pub delete_user_api_v1_admin_users_user_id_delete : Endpoint
delete_user_api_v1_admin_users_user_id_delete =
    plain "deleteUserApiV1AdminUsersUserIdDelete" "DELETE" "/api/v1/admin/users/{user_id}"

abbrev pub get_user_api_v1_admin_users_user_id_get : Endpoint
get_user_api_v1_admin_users_user_id_get =
    plain "getUserApiV1AdminUsersUserIdGet" "GET" "/api/v1/admin/users/{user_id}"

abbrev pub update_user_api_v1_admin_users_user_id_put : Endpoint
update_user_api_v1_admin_users_user_id_put =
    json "updateUserApiV1AdminUsersUserIdPut" "PUT" "/api/v1/admin/users/{user_id}"

abbrev pub get_user_overview_api_v1_admin_users_user_id_overview_get : Endpoint
get_user_overview_api_v1_admin_users_user_id_overview_get =
    plain "getUserOverviewApiV1AdminUsersUserIdOverviewGet" "GET"
      "/api/v1/admin/users/{user_id}/overview"

abbrev pub reset_user_password_api_v1_admin_users_user_id_reset_password_post : Endpoint
reset_user_password_api_v1_admin_users_user_id_reset_password_post =
    json "resetUserPasswordApiV1AdminUsersUserIdResetPasswordPost" "POST"
      "/api/v1/admin/users/{user_id}/reset-password"

abbrev pub unlock_user_api_v1_admin_users_user_id_unlock_post : Endpoint
unlock_user_api_v1_admin_users_user_id_unlock_post =
    plain "unlockUserApiV1AdminUsersUserIdUnlockPost" "POST" "/api/v1/admin/users/{user_id}/unlock"

abbrev pub operations : List Endpoint
operations =
    get_default_rate_limit_rules_api_v1_admin_rate_limits_defaults_get
    ∷ get_user_rate_limits_api_v1_admin_rate_limits_user_id_get
    ∷ update_user_rate_limits_api_v1_admin_rate_limits_user_id_put
    ∷ reset_user_rate_limits_api_v1_admin_rate_limits_user_id_reset_post
    ∷ list_users_api_v1_admin_users_get ∷ create_user_api_v1_admin_users_post
    ∷ delete_user_api_v1_admin_users_user_id_delete ∷ get_user_api_v1_admin_users_user_id_get
    ∷ update_user_api_v1_admin_users_user_id_put
    ∷ get_user_overview_api_v1_admin_users_user_id_overview_get
    ∷ reset_user_password_api_v1_admin_users_user_id_reset_password_post
    ∷ unlock_user_api_v1_admin_users_user_id_unlock_post ∷ []
