-- ===== src/Api.antt =====
-- The values that the API and the frontend exchange (frontend/src/lib/api/types.gen.ts), as far as
-- the code of the frontend looks into them.
use integr8s_code.Base.{List, [], ◌∷◌, Text, codes}

pub data ExecutionStatus : Type 0 where
  queued scheduled running completed failed timeout cancelled error : ExecutionStatus

pub data UserRole : Type 0 where
  user admin moderator : UserRole

-- The constructors are spelled as the values on the wire.
pub data EventType : Type 0 where
  execution_requested execution_accepted execution_queued execution_started : EventType
  execution_running execution_completed execution_failed execution_timeout : EventType
  execution_cancelled pod_created pod_scheduled pod_running pod_succeeded pod_failed : EventType
  pod_terminated pod_deleted user_registered user_login user_logged_in user_logged_out : EventType
  user_updated user_deleted user_settings_updated notification_created notification_sent : EventType
  notification_delivered notification_failed notification_read notification_all_read : EventType
  notification_clicked notification_preferences_updated script_saved script_deleted : EventType
  script_shared security_violation rate_limit_exceeded auth_failed resource_limit_exceeded :
      EventType
  quota_exceeded system_error service_unhealthy service_recovered result_stored : EventType
  result_failed dlq_message_received dlq_message_retried dlq_message_discarded : EventType

-- The one value of `SseControlEvent` is `status`.
pub data StreamEventType : Type 0 where
  event : EventType → StreamEventType
  status : StreamEventType

-- The text of an event type.
unfoldable pub value : EventType → Text
value execution_requested = codes "execution_requested"
value execution_accepted = codes "execution_accepted"
value execution_queued = codes "execution_queued"
value execution_started = codes "execution_started"
value execution_running = codes "execution_running"
value execution_completed = codes "execution_completed"
value execution_failed = codes "execution_failed"
value execution_timeout = codes "execution_timeout"
value execution_cancelled = codes "execution_cancelled"
value pod_created = codes "pod_created"
value pod_scheduled = codes "pod_scheduled"
value pod_running = codes "pod_running"
value pod_succeeded = codes "pod_succeeded"
value pod_failed = codes "pod_failed"
value pod_terminated = codes "pod_terminated"
value pod_deleted = codes "pod_deleted"
value user_registered = codes "user_registered"
value user_login = codes "user_login"
value user_logged_in = codes "user_logged_in"
value user_logged_out = codes "user_logged_out"
value user_updated = codes "user_updated"
value user_deleted = codes "user_deleted"
value user_settings_updated = codes "user_settings_updated"
value notification_created = codes "notification_created"
value notification_sent = codes "notification_sent"
value notification_delivered = codes "notification_delivered"
value notification_failed = codes "notification_failed"
value notification_read = codes "notification_read"
value notification_all_read = codes "notification_all_read"
value notification_clicked = codes "notification_clicked"
value notification_preferences_updated = codes "notification_preferences_updated"
value script_saved = codes "script_saved"
value script_deleted = codes "script_deleted"
value script_shared = codes "script_shared"
value security_violation = codes "security_violation"
value rate_limit_exceeded = codes "rate_limit_exceeded"
value auth_failed = codes "auth_failed"
value resource_limit_exceeded = codes "resource_limit_exceeded"
value quota_exceeded = codes "quota_exceeded"
value system_error = codes "system_error"
value service_unhealthy = codes "service_unhealthy"
value service_recovered = codes "service_recovered"
value result_stored = codes "result_stored"
value result_failed = codes "result_failed"
value dlq_message_received = codes "dlq_message_received"
value dlq_message_retried = codes "dlq_message_retried"
value dlq_message_discarded = codes "dlq_message_discarded"

-- `Object.values(EventType)`
abbrev pub event_types : List EventType
event_types =
    execution_requested ∷ execution_accepted ∷ execution_queued ∷ execution_started
    ∷ execution_running ∷ execution_completed ∷ execution_failed ∷ execution_timeout
    ∷ execution_cancelled ∷ pod_created ∷ pod_scheduled ∷ pod_running ∷ pod_succeeded ∷ pod_failed
    ∷ pod_terminated ∷ pod_deleted ∷ user_registered ∷ user_login ∷ user_logged_in ∷ user_logged_out
    ∷ user_updated ∷ user_deleted ∷ user_settings_updated ∷ notification_created ∷ notification_sent
    ∷ notification_delivered ∷ notification_failed ∷ notification_read ∷ notification_all_read
    ∷ notification_clicked ∷ notification_preferences_updated ∷ script_saved ∷ script_deleted
    ∷ script_shared ∷ security_violation ∷ rate_limit_exceeded ∷ auth_failed
    ∷ resource_limit_exceeded ∷ quota_exceeded ∷ system_error ∷ service_unhealthy
    ∷ service_recovered ∷ result_stored ∷ result_failed ∷ dlq_message_received ∷ dlq_message_retried
    ∷ dlq_message_discarded ∷ []
