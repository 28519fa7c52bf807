-- ===== src/Csrf/Laws.antt =====
-- The token is the value of the cookie `csrf_token`, whatever the other cookies are.
use integr8s_code.Base.{
  ◌≡◌, ◌⊎◌, ◌≢◌, refl, Bool, true, false, Option, none, some, List, [], ◌∷◌, ◌++◌, arith,
  append_assoc, append-nil, All-append, if◌then◌else◌, Text, codes, text_eq, text_eq_iff,
  strip_prefix, skip_spaces, until, is_space, Lacks, All, until-append, until_of_Lacks, lookup,
}
use integr8s_code.Headers.{get, lower_text, get-set}
use integr8s_code.Csrf.{
  csrf_header, Request, csrf_interceptor, value_here, or_else, scan, csrf_token,
}

-- `document.cookie` over a jar: the pairs `name=value`, joined by "; ".
abbrev pub pair : Text → Text → Text
pair name value = name ++ b'=' ∷ value

pub render_more : List (Text × Text) → Text
render_more [] = []
render_more ((n, v) ∷ jar) = b';' ∷ b' ' ∷ (pair n v ++ render_more jar)

unfoldable pub render : List (Text × Text) → Text
unfolding render_more
render [] = []
render ((n, v) ∷ jar) = pair n v ++ render_more jar

-- What the cookie syntax asks for: no `=` or `;` in a name, a name that begins with no space,
-- and no `;` in a value.
abbrev pub IsBare : Text → Type 0
IsBare [] = ⊥
IsBare (c ∷ s) = is_space c ≡ false

abbrev pub IsCookie : Text × Text → Type 0
IsCookie (n, v) = Lacks b'=' n × Lacks b';' n × IsBare n × Lacks b';' v

abbrev pub name_key : Text
name_key = codes "csrf_token"

until-render_more :
    (v : Text) (jar : List (Text × Text)) → Lacks b';' v → until b';' (v ++ render_more jar) ≡ v
unfolding render_more
until-render_more v [] h = rw append-nil (until_of_Lacks b';' v h)
until-render_more v ((n, w) ∷ jar) h = until-append b';' v _ h

-- The scan passes over what holds no `;`.
scan-Lacks : (s t : Text) → Lacks b';' s → scan (s ++ t) ≡ scan t
unfolding scan
scan-Lacks [] t h = refl
scan-Lacks (c ∷ s) t h = ground (arith, scan-Lacks s t h.1)

-- A prefix that ends in `=` is found in front of a pair exactly if it is the pair's name.
strip_prefix-pair :
    (k n v : Text)
    → Lacks b'=' k
    → Lacks b'=' n
    → strip_prefix (k ++ b'=' ∷ []) (n ++ b'=' ∷ v) ≡ (if text_eq n k then some v else none)
unfolding strip_prefix text_eq
strip_prefix-pair [] [] v hk hn = ground arith
strip_prefix-pair [] (b ∷ n) v hk hn = ground arith
strip_prefix-pair (a ∷ k) [] v hk hn = ground arith
strip_prefix-pair (a ∷ k) (b ∷ n) v hk hn = ground (arith, strip_prefix-pair k n v hk.1 hn.1)

value_here-pair :
    (n v : Text) (jar : List (Text × Text))
    → IsCookie (n, v)
    → value_here (pair n v ++ render_more jar) ≡ (if text_eq n name_key then some v else none)
unfolding value_here
value_here-pair n v jar h =
    let found = strip_prefix-pair name_key n (v ++ render_more jar) (omega arith) h.0 in
    let tail = until-render_more v jar h.3 in rw append_assoc (ground (arith, found, tail))

skip_spaces-pair : (n v t : Text) → IsBare n → skip_spaces (pair n v ++ t) ≡ pair n v ++ t
unfolding skip_spaces
skip_spaces-pair [] v t h = absurd h
skip_spaces-pair (c ∷ s) v t h = ground arith

scan-pair : (n v t : Text) → IsCookie (n, v) → scan (pair n v ++ t) ≡ scan t
scan-pair n v t h = scan-Lacks (pair n v) t (All-append _ n (b'=' ∷ v) h.1 (omega arith, h.3))

scan-separator : (s : Text) → scan (b';' ∷ b' ' ∷ s) ≡ or_else (value_here (skip_spaces s)) (scan s)
unfolding scan
scan-separator s = refl

or_else_if :
    (b : Bool) (v : Text) (o : Option Text)
    → or_else (if b then some v else none) o ≡ (if b then some v else o)
unfolding or_else
or_else_if true v o = refl
or_else_if false v o = refl

scan-render_more :
    (jar : List (Text × Text)) → All IsCookie jar → scan (render_more jar) ≡ lookup name_key jar
unfolding render_more lookup
scan-render_more [] h = unfold scan in refl
scan-render_more ((n, v) ∷ jar) h =
    rw
      (
        scan-separator (pair n v ++ render_more jar),
        skip_spaces-pair n v (render_more jar) h.0.2,
        value_here-pair n v jar h.0,
        scan-pair n v (render_more jar) h.0,
        scan-render_more jar h.1,
      )
      (or_else_if (text_eq n name_key) v (lookup name_key jar))

-- Over a jar of well-formed cookies, in any order and with any others around it, the interceptor's
-- regular expression finds the value of the first cookie named `csrf_token`, and nothing exactly if
-- there is none.
pub csrf_token-render :
    (jar : List (Text × Text)) → All IsCookie jar → csrf_token (render jar) ≡ lookup name_key jar
unfolding csrf_token render lookup
csrf_token-render [] h = refl
csrf_token-render ((n, v) ∷ jar) h =
    rw (value_here-pair n v jar h.0, scan-pair n v (render_more jar) h.0, scan-render_more jar h.1)
      (or_else_if (text_eq n name_key) v (lookup name_key jar))

-- A request other than a GET, over a jar whose cookie `csrf_token` is not empty, leaves with the
-- header X-CSRF-Token at that cookie's value, and with its method and every other header as before.
pub csrf_interceptor-sends :
    (jar : List (Text × Text)) (r : Request) (token name : Text)
    → All IsCookie jar
    → lookup name_key jar ≡ some token
    → token ≢ []
    → r.method ≢ codes "GET"
    → let sent = csrf_interceptor (render jar) r in
      (sent.method ≡ r.method)
      × (get name sent.headers ≡ (
          if text_eq (lower_text csrf_header) (lower_text name)
          then some token
          else get name r.headers))
unfolding csrf_interceptor
csrf_interceptor-sends jar r token name h found full other = ground (
  arith,
  csrf_token-render jar h,
  text_eq_iff r.method (codes "GET"),
  get-set csrf_header name token r.headers,
)

-- A GET, and every request over a jar with no cookie `csrf_token` or an empty one, is left as it is.
pub csrf_interceptor-keeps :
    (jar : List (Text × Text)) (r : Request)
    → All IsCookie jar
    → (r.method ≡ codes "GET") ⊎ ((lookup name_key jar ≡ none) ⊎ (lookup name_key jar ≡ some []))
    → csrf_interceptor (render jar) r ≡ r
unfolding csrf_interceptor
csrf_interceptor-keeps jar r h why =
    ground (arith, csrf_token-render jar h, text_eq_iff r.method (codes "GET"))
