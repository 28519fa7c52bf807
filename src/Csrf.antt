-- ===== src/Csrf.antt =====
-- The request interceptor of frontend/src/lib/api-interceptors.ts, which echoes the cookie
-- `csrf_token` in a header: the regular expression `(?:^|;\s*)csrf_token=([^;]*)` over
-- `document.cookie`, as the scan from left to right that it stands for.
pub mod Laws
mod Examples
use integr8s_code.Headers.{Headers, set}
use integr8s_code.Base.{
  Bool, true, false, not, ◌&&◌, Option, none, some, List, [], ◌∷◌, ◌==◌, if◌then◌else◌, Text, codes,
  is_empty, text_eq, strip_prefix, skip_spaces, until,
}

abbrev pub csrf_key : Text
csrf_key = codes "csrf_token="

-- A match at this place, behind `^` or behind a `;` and its spaces: the captured group.
value_here : Text → Option Text
unfolding strip_prefix until
value_here s = elim (strip_prefix csrf_key s) [ some rest ↦ some (until b';' rest) | none ↦ none ]

or_else : Option Text → Option Text → Option Text
or_else (some v) o = some v
or_else none o = o

-- The places behind a `;`, from left to right.
scan : Text → Option Text
unfolding value_here or_else skip_spaces
scan [] = none
scan (c ∷ s) =
    let later = scan s in if c == b';' then or_else (value_here (skip_spaces s)) later else later

unfoldable pub csrf_token : Text → Option Text
unfolding scan
csrf_token cookie = or_else (value_here cookie) (scan cookie)

abbrev pub csrf_header : Text
csrf_header = codes "X-CSRF-Token"

pub record Request : Type 0 where
  pub method : Text
  pub headers : Headers

-- A match with an empty value is falsy, like no match.
is_truthy : Option Text → Bool
is_truthy none = false
is_truthy (some v) = not (is_empty v)

with_token : Option Text → Request → Request
with_token none r = r
with_token (some token) r = record r { headers = set csrf_header token r.headers }

unfoldable pub csrf_interceptor : (cookie : Text) → Request → Request
unfolding is_truthy with_token csrf_token
csrf_interceptor cookie r =
    if not (text_eq r.method (codes "GET")) && is_truthy (csrf_token cookie)
    then with_token (csrf_token cookie) r
    else r
