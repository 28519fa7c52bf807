-- ===== src/Guards/Forms.antt =====
-- The forms of frontend/src/routes/login/+page.svelte and of frontend/src/routes/register/+page.svelte.
-- The form library keeps the fields, checks them by the schemas and tells whether they are valid.
use integr8s_code.Base.{
  not, Bool, true, false, Option, none, some, List, [], ◌∷◌, ◌&&◌, if◌then◌else◌, Text, text_eq,
  is_empty, codes,
}
use Prim.Native.String.{String}
use integr8s_code.Guards.{Router}
use integr8s_code.Guards.Login
use integr8s_code.Errors.{ErrorResponse, Effect, show_api_error}

pub record LoginBody : Type 0 where
  pub username : Text
  pub password : Text

pub record Registration : Type 0 where
  pub username : Text
  pub email : Text
  pub password : Text

pub record RegisterForm : Type 0 where
  pub fields : Registration
  pub confirm_password : Text

not_empty : Text → Bool
not_empty s = not (is_empty s)

-- The schemas; `valid_email` and `valid_password` are the API's rules.
unfoldable pub is_login : LoginBody → Bool
unfolding not_empty
is_login c = not_empty c.username && not_empty c.password

unfoldable pub is_registration :
    (valid_username valid_email valid_password : Text → Bool) → RegisterForm → Bool
unfolding text_eq not_empty
is_registration valid_username valid_email valid_password f =
    not_empty f.fields.username
    && (valid_username f.fields.username
        && (valid_email f.fields.email
            && (valid_password f.fields.password && text_eq f.fields.password f.confirm_password)))

-- What the mutation's observer shows: whether its call is under way, and the error of it.
pub record Page : Type 0 where
  pub is_pending : Bool
  pub failure : Option ErrorResponse

abbrev pub idle : Page
idle = record { is_pending = false; failure = none }

-- `onSubmit` and then `onUpdate` with the fields, of the type `B`; the button is disabled while a call
-- is under way. The body that is sent, if any.
unfoldable pub submit : {B : Type 0} → (valid : Bool) → B → Page → Page × Option B
submit valid body p =
    if p.is_pending
    then (p, none)
    else if valid
    then (record { is_pending = true; failure = none }, some body)
    else (idle, none)

unfoldable pub on_succeeded : Page → Page
on_succeeded p = idle

-- A failure is kept for the form, besides what the query client shows of a mutation whose form shows
-- errors itself.
unfoldable pub on_failed : (signed_in : Bool) → ErrorResponse → Page → Page × List Effect
unfolding show_api_error
on_failed signed_in e p =
    (record { is_pending = false; failure = some e }, show_api_error signed_in e true)

unfoldable pub shown_failure : Page → Option String
shown_failure p = elim p.failure [ some e ↦ some e.detail | none ↦ none ]

-- `onSuccess` of the registration.
unfoldable pub on_registered : Router → List Login.Effect
on_registered r =
    Login.success "Registration successful! Please log in."
    ∷ Login.goto (r.resolve (codes "/login")) false
    ∷ []
