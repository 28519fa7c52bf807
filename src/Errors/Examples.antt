-- ===== src/Errors/Examples.antt =====
-- The theorems at failures that the API, a proxy and the network give.
use integr8s_code.Base.{◌≡◌, true, false, none, some, refl, decimal, ◌==◌, if◌then◌else◌}
use integr8s_code.Errors.{ErrorResponse, show_api_error, error_interceptor}
use integr8s_code.Errors.Laws.{toasts, toasts-show_api_error}

abbrev expired : ErrorResponse
expired = record { status = 401; detail = "Not authenticated" }

bad_gateway : (error_interceptor none (some 502)).0 ≡ record { status = 502; detail = "HTTP 502" }
unfolding error_interceptor decimal
bad_gateway = refl

toasts-show_api_error_example :
    toasts (show_api_error true expired false)
    ≡ (if expired.status == 401 then (if true then 1 else 0) else 1)
toasts-show_api_error_example = toasts-show_api_error true expired
