-- ===== src/Guards/Login/Returning.antt =====
-- Who is sent to the login comes back to the page that was asked for, and nowhere outside this app.
use integr8s_code.Base.{◌≡◌, ap, none, some, Option-cases, inl, inr, Text, ◌⊎◌}
use integr8s_code.Errors.{ErrorResponse}
use integr8s_code.Guards.{Router}
use integr8s_code.Guards.Login.{Pages, editor_page, requested, route_or_editor, destination}

-- `URLSearchParams` reads what it wrote.
abbrev pub Decodes : Router → Pages → Type 0
Decodes r pages = (key value : Text) → pages.get (r.search_params key value) key ≡ some value

-- The editor, or a page of this app that a path leads to.
abbrev pub IsPage : Router → Pages → Text → Type 0
IsPage r pages location =
    (location ≡ r.resolve editor_page)
    ⊎ ((path : Text) × (id : Text) × (pages.match path ≡ some id) × (location ≡ r.resolve id))

-- The request for the profile of someone who is not signed in.
abbrev pub unauthorized : ErrorResponse
unauthorized = record { status = 401; detail = "Not authenticated" }

abbrev landing : Router → Pages → (path : Text) → Text
landing r pages path = r.resolve (route_or_editor (pages.match path))

landing_matched :
    (r : Router) (pages : Pages) (path id : Text)
    → pages.match path ≡ some id
    → landing r pages path ≡ r.resolve id
unfolding route_or_editor
landing_matched r pages path id e = ap (λ o. r.resolve (route_or_editor o)) e

landing_unmatched :
    (r : Router) (pages : Pages) (path : Text)
    → pages.match path ≡ none
    → landing r pages path ≡ r.resolve editor_page
unfolding route_or_editor
landing_unmatched r pages path e = ap (λ o. r.resolve (route_or_editor o)) e

-- Whatever the login page's URL asks for, the location after the login is the editor or a page of this app.
pub destination-IsPage :
    (r : Router) (pages : Pages) (query : Text) → IsPage r pages (destination r pages query)
unfolding destination
destination-IsPage r pages query =
    let path = requested r pages query in
    elim (Option-cases (pages.match path)) [
      | inl e ↦ inl (landing_unmatched r pages path e)
      | inr (id, e) ↦ inr (path, id, e, landing_matched r pages path id e)
    ]
