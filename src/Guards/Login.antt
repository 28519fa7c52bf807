-- ===== src/Guards/Login.antt =====
-- Where a user lands who signs in: `login` of frontend/src/routes/login/+page.svelte, together with
-- the guards that sent the user there.
pub mod Returning
use Prim.Native.String.{String}
use integr8s_code.Base.{Bool, true, Option, none, some, List, [], ◌∷◌, Text, codes}
use integr8s_code.Guards.{Router}

-- SvelteKit's `match`, which gives the id of the route of this app that a path belongs to, and
-- `URLSearchParams.get` on what stands behind a URL's question mark.
pub record Pages : Type 0 where
  pub match : Text → Option Text
  pub get : (query : Text) → (key : Text) → Option Text

abbrev pub editor_page : Text
editor_page = codes "/(auth)/editor"

pub data Effect : Type 0 where
  success : String → Effect
  goto : (location : Text) → (refresh_all : Bool) → Effect

requested : Router → Pages → (query : Text) → Text
requested r pages query = elim (pages.get query (codes "redirect")) [
  | some path ↦ path
  | none ↦ r.resolve editor_page
]

route_or_editor : Option Text → Text
route_or_editor none = editor_page
route_or_editor (some id) = id

unfoldable pub destination : Router → Pages → (query : Text) → Text
unfolding requested route_or_editor
destination r pages query = r.resolve (route_or_editor (pages.match (requested r pages query)))

-- `onSuccess` of the login, on the login page with this search.
unfoldable pub on_login : Router → Pages → (query : Text) → List Effect
unfolding destination
on_login r pages query =
    success "Login successful! Welcome back." ∷ goto (destination r pages query) true ∷ []
