-- ===== src/Sdk/Operations/Executions.antt =====
-- The operations on executions and saved scripts, in frontend/src/lib/api/sdk.gen.ts.
use integr8s_code.Base.{List, [], ◌∷◌}
use integr8s_code.Sdk.Endpoints.{Endpoint, json, plain, event_stream}

abbrev pub create_execution_api_v1_execute_post : Endpoint
create_execution_api_v1_execute_post =
    json "createExecutionApiV1ExecutePost" "POST" "/api/v1/execute"

abbrev pub get_result_api_v1_executions_execution_id_result_get : Endpoint
get_result_api_v1_executions_execution_id_result_get =
    plain "getResultApiV1ExecutionsExecutionIdResultGet" "GET"
      "/api/v1/executions/{execution_id}/result"

abbrev pub cancel_execution_api_v1_executions_execution_id_cancel_post : Endpoint
cancel_execution_api_v1_executions_execution_id_cancel_post =
    plain "cancelExecutionApiV1ExecutionsExecutionIdCancelPost" "POST"
      "/api/v1/executions/{execution_id}/cancel"

abbrev pub retry_execution_api_v1_executions_execution_id_retry_post : Endpoint
retry_execution_api_v1_executions_execution_id_retry_post =
    plain "retryExecutionApiV1ExecutionsExecutionIdRetryPost" "POST"
      "/api/v1/executions/{execution_id}/retry"

abbrev pub get_execution_events_api_v1_executions_execution_id_events_get : Endpoint
get_execution_events_api_v1_executions_execution_id_events_get =
    plain "getExecutionEventsApiV1ExecutionsExecutionIdEventsGet" "GET"
      "/api/v1/executions/{execution_id}/events"

abbrev pub get_user_executions_api_v1_user_executions_get : Endpoint
get_user_executions_api_v1_user_executions_get =
    plain "getUserExecutionsApiV1UserExecutionsGet" "GET" "/api/v1/user/executions"

abbrev pub get_example_scripts_api_v1_example_scripts_get : Endpoint
get_example_scripts_api_v1_example_scripts_get =
    plain "getExampleScriptsApiV1ExampleScriptsGet" "GET" "/api/v1/example-scripts"

abbrev pub get_k8s_resource_limits_api_v1_k8s_limits_get : Endpoint
get_k8s_resource_limits_api_v1_k8s_limits_get =
    plain "getK8sResourceLimitsApiV1K8sLimitsGet" "GET" "/api/v1/k8s-limits"

abbrev pub delete_execution_api_v1_executions_execution_id_delete : Endpoint
delete_execution_api_v1_executions_execution_id_delete =
    plain "deleteExecutionApiV1ExecutionsExecutionIdDelete" "DELETE"
      "/api/v1/executions/{execution_id}"

abbrev pub list_saved_scripts_api_v1_scripts_get : Endpoint
list_saved_scripts_api_v1_scripts_get =
    plain "listSavedScriptsApiV1ScriptsGet" "GET" "/api/v1/scripts"

abbrev pub create_saved_script_api_v1_scripts_post : Endpoint
create_saved_script_api_v1_scripts_post =
    json "createSavedScriptApiV1ScriptsPost" "POST" "/api/v1/scripts"

abbrev pub delete_saved_script_api_v1_scripts_script_id_delete : Endpoint
delete_saved_script_api_v1_scripts_script_id_delete =
    plain "deleteSavedScriptApiV1ScriptsScriptIdDelete" "DELETE" "/api/v1/scripts/{script_id}"

abbrev pub get_saved_script_api_v1_scripts_script_id_get : Endpoint
get_saved_script_api_v1_scripts_script_id_get =
    plain "getSavedScriptApiV1ScriptsScriptIdGet" "GET" "/api/v1/scripts/{script_id}"

abbrev pub update_saved_script_api_v1_scripts_script_id_put : Endpoint
update_saved_script_api_v1_scripts_script_id_put =
    json "updateSavedScriptApiV1ScriptsScriptIdPut" "PUT" "/api/v1/scripts/{script_id}"

abbrev pub execution_events_api_v1_events_executions_execution_id_get : Endpoint
execution_events_api_v1_events_executions_execution_id_get =
    event_stream "executionEventsApiV1EventsExecutionsExecutionIdGet" "GET"
      "/api/v1/events/executions/{execution_id}"

abbrev pub operations : List Endpoint
operations =
    create_execution_api_v1_execute_post ∷ get_result_api_v1_executions_execution_id_result_get
    ∷ cancel_execution_api_v1_executions_execution_id_cancel_post
    ∷ retry_execution_api_v1_executions_execution_id_retry_post
    ∷ get_execution_events_api_v1_executions_execution_id_events_get
    ∷ get_user_executions_api_v1_user_executions_get
    ∷ get_example_scripts_api_v1_example_scripts_get ∷ get_k8s_resource_limits_api_v1_k8s_limits_get
    ∷ delete_execution_api_v1_executions_execution_id_delete ∷ list_saved_scripts_api_v1_scripts_get
    ∷ create_saved_script_api_v1_scripts_post ∷ delete_saved_script_api_v1_scripts_script_id_delete
    ∷ get_saved_script_api_v1_scripts_script_id_get
    ∷ update_saved_script_api_v1_scripts_script_id_put
    ∷ execution_events_api_v1_events_executions_execution_id_get ∷ []
