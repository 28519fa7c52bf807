-- ===== src/Guards.antt =====
-- Who may see which page: the `load` functions of the layouts under frontend/src/routes.
pub mod Access
pub mod Login
pub mod Forms
mod Examples
use Prim.Native.String.{String}
use integr8s_code.Base.{
  ℕ, Bool, true, false, not, ◌&&◌, Option, none, some, List, [], ◌∷◌, ◌++◌, ◌==◌, if◌then◌else◌,
  Text, codes,
}
use integr8s_code.Api.{UserRole, user, admin, moderator}
use integr8s_code.Errors.{ErrorResponse}

-- The profile that the API answers, as far as the guards look into it.
pub record UserResponse : Type 0 where
  pub username : String
  pub role : UserRole

pub record Url : Type 0 where
  pub pathname : Text
  pub search : Text

-- SvelteKit's `resolve`, which puts the base path in front, and the platform's encoding of one pair by
-- `URLSearchParams`.
pub record Router : Type 0 where
  pub resolve : Text → Text
  pub search_params : (key : Text) → Text → Text

-- How a `load` ends: with data, with the error page, or with a redirect after the toasts shown.
pub data Load (A : Type 0) : Type 0 where
  loaded : A → Load A
  error : (status : ℕ) → (detail : String) → Load A
  redirect : (toasts : List String) → (status : ℕ) → (location : Text) → Load A

abbrev pub is_admin : UserRole → Bool
is_admin admin = true
is_admin _ = false

-- The root layout, over the answer to the request for the profile.
check_failure : Option UserResponse → Option ErrorResponse → Load (Option UserResponse)
check_failure answer none = loaded answer
check_failure answer (some failure) =
    if not (failure.status == 401) && not (failure.status == 0)
    then error failure.status failure.detail
    else loaded answer

unfoldable pub root_load : Option UserResponse → Option ErrorResponse → Load (Option UserResponse)
unfolding check_failure
root_load answer failure = check_failure answer failure

abbrev pub login_location : Router → Url → Text
login_location r url =
    r.resolve (codes "/login")
    ++ b'?' ∷ r.search_params (codes "redirect") (url.pathname ++ url.search)

-- The layout of the pages for signed-in users.
unfoldable pub auth_load : Router → Url → Option UserResponse → Load UserResponse
auth_load r url none = redirect [] 307 (login_location r url)
auth_load r url (some u) = loaded u

-- The layout of the admin pages.
unfoldable pub admin_load : Router → Url → Option UserResponse → Load UserResponse
admin_load r url none = redirect [] 307 (login_location r url)
admin_load r url (some u) =
    if not (is_admin u.role)
    then redirect ("Admin access required" ∷ []) 307 (r.resolve (codes "/"))
    else loaded u

-- `await parent()`: a layout below the root runs on what the root loaded, or ends as the root did.
unfoldable pub and_then :
    Load (Option UserResponse) → (Option UserResponse → Load UserResponse) → Load UserResponse
and_then (loaded u) k = k u
and_then (error status detail) k = error status detail
and_then (redirect toasts status location) k = redirect toasts status location

-- A visit of a page below the layout.
unfoldable pub visit :
    (Option UserResponse → Load UserResponse)
    → Option UserResponse
    → Option ErrorResponse
    → Load UserResponse
unfolding and_then root_load
visit layout answer failure = and_then (root_load answer failure) layout
