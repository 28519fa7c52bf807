-- ===== src/Client/Auth.antt =====
-- Credentials of a request: frontend/src/lib/api/core/auth.gen.ts, and setAuthParams of
-- frontend/src/lib/api/client/utils.gen.ts. `btoa` is the browser's; the callback that answers a
-- token is a function of the scheme.
pub mod Keeping
use integr8s_code.Base.{
  Bool, true, false, not, ◌||◌, Option, none, some, List, [], ◌∷◌, ◌++◌, if◌then◌else◌, Text, codes,
  is_empty, is_some, includes, lookup, insert, text_eq,
}
use integr8s_code.Headers.{Headers, get, set, append}
use integr8s_code.Client.Values.{Value, string, is_truthy}

pub data Place : Type 0 where
  header query cookie : Place

pub data Scheme : Type 0 where
  basic bearer : Scheme

pub data AuthType : Type 0 where
  api_key http : AuthType

pub record Auth : Type 0 where
  pub place : Option Place
  pub key : Option Text
  pub name : Option Text
  pub scheme : Option Scheme
  pub type : AuthType

pub data Callback : Type 0 where
  function : (Auth → Option Text) → Callback
  token : Option Text → Callback

-- `if (!token)`
some_text : Option Text → Option Text
some_text none = none
some_text (some []) = none
some_text (some (c ∷ s)) = some (c ∷ s)

answered : Callback → Auth → Option Text
unfolding some_text
answered (function f) auth = some_text (f auth)
answered (token t) auth = some_text t

with_scheme : (btoa : Text → Text) → Option Scheme → Text → Text
with_scheme btoa (some bearer) t = codes "Bearer " ++ t
with_scheme btoa (some basic) t = codes "Basic " ++ btoa t
with_scheme btoa none t = t

unfoldable pub get_auth_token : (btoa : Text → Text) → Auth → Callback → Option Text
unfolding answered with_scheme
get_auth_token btoa auth callback = elim (answered callback auth) [
  | some t ↦ some (with_scheme btoa auth.scheme t)
  | none ↦ none
]

-- What `setAuthParams` changes of the options.
pub record Credentials : Type 0 where
  pub headers : Headers
  pub query : Option (List (Text × Value))

abbrev query_has : Option (List (Text × Value)) → Text → Bool
unfolding lookup
query_has none name = false
query_has (some q) name = elim (lookup name q) [ some v ↦ is_truthy v | none ↦ false ]

abbrev cookie_has : Option Text → Text → Bool
unfolding includes
cookie_has none name = false
cookie_has (some cookies) name = includes cookies (name ++ codes "=")

exists_named : Credentials → Text → Bool
unfolding get lookup includes
exists_named c [] = false
exists_named c (x ∷ name) =
    is_some (get (x ∷ name) c.headers)
    || (query_has c.query (x ∷ name) || cookie_has (get (codes "Cookie") c.headers) (x ∷ name))

unfoldable pub check_for_existence : Credentials → Option Text → Bool
unfolding exists_named
check_for_existence c none = false
check_for_existence c (some name) = exists_named c name

abbrev pub name_or : Option Text → Text
name_or (some name) = name
name_or none = codes "Authorization"

abbrev query_or_empty : Option (List (Text × Value)) → List (Text × Value)
query_or_empty none = []
query_or_empty (some q) = q

in_place : Option Place → (name token : Text) → Credentials → Credentials
unfolding insert set append
in_place (some query) name t c = record c {
  query = some (insert name (string t) (query_or_empty c.query));
}
in_place (some cookie) name t c = record c {
  headers = append (codes "Cookie") (name ++ b'=' ∷ t) c.headers;
}
in_place _ name t c = record c { headers = set name t c.headers }

-- One round of the `for`.
unfoldable pub set_auth_param : (btoa : Text → Text) → Callback → Auth → Credentials → Credentials
unfolding check_for_existence get_auth_token in_place
set_auth_param btoa callback auth c =
    if check_for_existence c auth.name then c else elim (get_auth_token btoa auth callback) [
      | none ↦ c
      | some t ↦ in_place auth.place (name_or auth.name) t c
    ]

unfoldable pub set_auth_params :
    (btoa : Text → Text) → Callback → List Auth → Credentials → Credentials
unfolding set_auth_param
set_auth_params btoa callback [] c = c
set_auth_params btoa callback (auth ∷ security) c =
    set_auth_params btoa callback security (set_auth_param btoa callback auth c)
