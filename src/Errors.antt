-- ===== src/Errors.antt =====
-- How a failed API call reaches the user: frontend/src/lib/api-interceptors.ts and
-- frontend/src/lib/query-client.ts. Toasts, the query cache and the reload of the page's data are
-- effects, in the order in which the code asks for them.
pub mod Laws
mod Examples
use integr8s_code.Base.{
  ℕ, Bool, true, false, ◌&&◌, ◌||◌, Option, none, some, List, [], ◌∷◌, ltb, leb, ◌==◌,
  if◌then◌else◌, decimal,
}
use Prim.Native.String
use Prim.Native.String.{String}

pub record ErrorResponse : Type 0 where
  pub status : ℕ
  pub detail : String

pub data ToastType : Type 0 where
  error warning : ToastType

pub data Effect : Type 0 where
  toast : ToastType → String → Effect
  toast_once : (id : String) → ToastType → String → Effect
  clear_queries : Effect
  refresh_all : Effect

-- `STATUS_MESSAGES[status]`
unfoldable pub status_message : ℕ → Option (ToastType × String)
status_message status =
    if status == 403
    then some (error, "Access denied.")
    else if status == 423
    then some (
      warning,
      "Your account has been temporarily locked due to too many failed login attempts. Please try again later.",
    )
    else if status == 429
    then some (warning, "Too many requests. Please slow down.")
    else none

-- `signed_in` is whether `page.data.user` is set.
unfoldable pub handle_401 : (signed_in : Bool) → List Effect
handle_401 false = []
handle_401 true =
    toast_once "session-expired" warning "Session expired. Please log in again."
    ∷ clear_queries
    ∷ refresh_all
    ∷ []

-- The branches behind the table of messages.
show_unmapped : ErrorResponse → Bool → List Effect
show_unmapped e inline_errors =
    if e.status == 422
    then toast error (String.◌++◌ "Validation error: " e.detail) ∷ []
    else if leb 500 e.status
    then toast error "Server error. Please try again later." ∷ []
    else if inline_errors
    then []
    else toast error e.detail ∷ []

show_mapped : Option (ToastType × String) → ErrorResponse → Bool → List Effect
show_mapped (some (type, message)) e inline_errors = toast type message ∷ []
show_mapped none e inline_errors = show_unmapped e inline_errors

unfoldable pub show_api_error :
    (signed_in : Bool) → ErrorResponse → (inline_errors : Bool) → List Effect
unfolding show_mapped show_unmapped handle_401 status_message
show_api_error signed_in e inline_errors =
    if e.status == 401
    then (if inline_errors then [] else handle_401 signed_in)
    else show_mapped (status_message e.status) e inline_errors

-- query-client.ts: `retry` of the queries, after `failures` earlier tries.
abbrev pub max_retries : ℕ
max_retries = 2

unfoldable pub retry : (failures : ℕ) → ErrorResponse → Bool
retry failures e = ltb failures max_retries && (e.status == 0 || leb 500 e.status)

pub data LogLevel : Type 0 where
  debug error : LogLevel

-- The error interceptor. `problem` is `zErrorResponse.safeParse(error)`, with its value when it
-- succeeds, and `response` is the response's status, where there is a response.
failure_of : Option ErrorResponse → Option ℕ → ErrorResponse
failure_of (some problem) response = problem
failure_of none (some status) = record {
  status = status;
  detail = String.◌++◌ "HTTP " (decimal status);
}
failure_of none none = record { status = 0; detail = "Network error. Check your connection." }

log_level : ErrorResponse → LogLevel
log_level failure =
    if failure.status == 0 || leb 500 failure.status then LogLevel.error else LogLevel.debug

unfoldable pub error_interceptor : Option ErrorResponse → Option ℕ → ErrorResponse × LogLevel
unfolding failure_of log_level
error_interceptor problem response =
    let failure = failure_of problem response in (failure, log_level failure)
