-- ===== src/Errors/Laws.antt =====
-- What a failed call shows, and which failures are tried again.
use integr8s_code.Base.{
  ℕ, suc, ◌≤◌, ◌≡◌, ◌≢◌, ◌↔◌, ◌⊎◌, Bool, true, false, Option, List, [], ◌∷◌, arith, length, ◌==◌,
  if◌then◌else◌, any,
}
use integr8s_code.Errors.{
  ErrorResponse, Effect, toast, toast_once, clear_queries, refresh_all, LogLevel, show_api_error,
  retry, error_interceptor,
}

-- What the user sees: the effects that are toasts.
abbrev pub is_toast : Effect → Bool
is_toast (toast _ _) = true
is_toast (toast_once _ _ _) = true
is_toast clear_queries = false
is_toast refresh_all = false

abbrev pub clears : Effect → Bool
clears clear_queries = true
clears _ = false

abbrev pub toasts : List Effect → ℕ
toasts [] = 0
toasts (e ∷ es) = if is_toast e then suc (toasts es) else toasts es

-- The statuses whose toast a form cannot take over.
abbrev pub IsAppWide : ℕ → Type 0
IsAppWide s = (s ≡ 403) ⊎ ((s ≡ 423) ⊎ ((s ≡ 429) ⊎ ((s ≡ 422) ⊎ (500 ≤ s))))

-- A failure that no form shows itself is shown once: by one toast, unless it is the 401 of somebody
-- who is not signed in, which shows nothing.
pub toasts-show_api_error :
    (signed_in : Bool) (e : ErrorResponse)
    → toasts (show_api_error signed_in e false)
      ≡ (if e.status == 401 then (if signed_in then 1 else 0) else 1)
unfolding show_api_error
toasts-show_api_error signed_in e = ground arith

-- Where a form shows its errors itself, a toast appears exactly for the statuses 403, 422, 423, 429
-- and 500 up, and then it is the one effect; for every other status nothing happens at all.
pub show_api_error_inline :
    (signed_in : Bool) (e : ErrorResponse)
    → ((toasts (show_api_error signed_in e true) ≡ 1) ↔ IsAppWide e.status)
      × ((show_api_error signed_in e true ≢ []) ↔ IsAppWide e.status)
      × (length (show_api_error signed_in e true) ≤ 1)
unfolding show_api_error
show_api_error_inline signed_in e = ground arith

-- The query cache is cleared exactly by the 401 of a signed-in user that no form shows itself, and
-- the page's data are then reloaded after it.
pub show_api_error-clears_iff :
    (signed_in : Bool) (e : ErrorResponse) (inline_errors : Bool)
    → (any clears (show_api_error signed_in e inline_errors) ≡ true)
      ↔ ((e.status ≡ 401) × (signed_in ≡ true) × (inline_errors ≡ false))
unfolding show_api_error
show_api_error-clears_iff signed_in e inline_errors = ground arith

-- After at most one earlier try, a query tries a failure that left the error interceptor again
-- exactly if the interceptor logged it as an error; after two or more it tries none again.
pub retry-error_interceptor :
    (failures : ℕ) (problem : Option ErrorResponse) (response : Option ℕ)
    → (retry failures (error_interceptor problem response).0 ≡ true)
      ↔ ((failures ≤ 1) × ((error_interceptor problem response).1 ≡ LogLevel.error))
unfolding retry error_interceptor
retry-error_interceptor failures problem response = ground arith
