-- ===== src/Session.antt =====
-- What the query cache holds when users sign in and out, over the effects of the parts that decide
-- it: handle401 of frontend/src/lib/api-interceptors.ts, the logout of
-- frontend/src/components/Header.svelte, the login of frontend/src/routes/login/+page.svelte and the
-- load of frontend/src/routes/+layout.ts. One tab is modelled, and queries that need a user.
pub mod Ownership
mod Examples
use integr8s_code.Base.{
  ℕ, Bool, true, false, Option, none, some, is_some, List, [], ◌∷◌, Text, if◌then◌else◌,
}
use integr8s_code.Errors.{ErrorResponse, show_api_error, clear_queries, refresh_all}
use integr8s_code.Errors
use integr8s_code.Shell.{Shell, logout_settled, clear_cache, go_to_login}
use integr8s_code.Shell
use integr8s_code.Guards.{Router}
use integr8s_code.Guards.Login.{Pages, on_login, goto}
use integr8s_code.Guards.Login

-- `user` is `page.data.user`, `server` whom the API takes the browser's cookie for; an entry of the
-- cache has its key and the user whose data it is.
pub record Session : Type 0 where
  pub user : Option Text
  pub server : Option Text
  pub cache : List (Text × Text)

abbrev pub nobody : Session
nobody = record { user = none; server = none; cache = [] }

-- The root's load asks the API anew.
abbrev pub reload : Session → Session
reload s = record s { user = s.server }

abbrev pub without_cache : Session → Session
without_cache s = record s { cache = [] }

unfoldable pub show_effects : List Errors.Effect → Session → Session
show_effects [] s = s
show_effects (clear_queries ∷ es) s = show_effects es (without_cache s)
show_effects (refresh_all ∷ es) s = show_effects es (reload s)
show_effects (_ ∷ es) s = show_effects es s

unfoldable pub shell_effects : List Shell.Effect → Session → Session
shell_effects [] s = s
shell_effects (clear_cache ∷ es) s = shell_effects es (without_cache s)
shell_effects (go_to_login ∷ es) s = shell_effects es (reload s)
shell_effects (_ ∷ es) s = shell_effects es s

unfoldable pub login_effects : List Login.Effect → Session → Session
login_effects [] s = s
login_effects (goto location true ∷ es) s = login_effects es (reload s)
login_effects (_ ∷ es) s = login_effects es s

abbrev pub not_signed_in : ErrorResponse
not_signed_in = record { status = 401; detail = "Not authenticated" }

-- `asked` is a query or a mutation under this key; `logged_out` has whether the API ended the session.
pub data Event : Type 0 where
  expired : Event
  asked : (key : Text) (inline_errors : Bool) → Event
  signed_in : (user : Text) → (query : Text) → Event
  logged_out : (ended : Bool) → Event

-- The answer goes into the cache, or fails with a 401.
unfoldable pub ask : (key : Text) (inline_errors : Bool) → Option Text → Session → Session
unfolding show_effects show_api_error
ask key inline_errors (some owner) s = record s { cache = (key, owner) ∷ s.cache }
ask key inline_errors none s =
    show_effects (show_api_error (is_some s.user) not_signed_in inline_errors) s

abbrev end_session : Bool → Session → Session
end_session true s = record s { server = none }
end_session false s = s

module _ (router : Router) (pages : Pages) (header : Shell Text) where
  unfoldable pub step : Event → Session → Session
  unfolding ask login_effects on_login shell_effects logout_settled
  step expired s = record s { server = none }
  step (asked key inline_errors) s = ask key inline_errors s.server s
  step (signed_in user query) s =
      login_effects (on_login router pages query) (record s { server = some user })
  step (logged_out ended) s = shell_effects (logout_settled header).1 (end_session ended s)

  unfoldable pub steps : List Event → Session → Session
  unfolding step
  steps [] s = s
  steps (e ∷ es) s = steps es (step e s)

  -- Whoever signs in finds nobody signed in on the page.
  unfoldable pub is_orderly : List Event → Session → Bool
  unfolding step
  is_orderly [] s = true
  is_orderly (signed_in user query ∷ es) s =
      let rest = is_orderly es (step (signed_in user query) s) in
      if is_some s.user then false else rest
  is_orderly (e ∷ es) s = is_orderly es (step e s)
