-- ===== src/Csrf/Examples.antt =====
-- The theorems on a cookie jar of three cookies.
use integr8s_code.Base.{◌≡◌, refl, List, [], ◌∷◌, Text, codes, lookup, arith, some, is_space}
use integr8s_code.Csrf.{csrf_token, Request}
use integr8s_code.Csrf.Laws.{name_key, render, csrf_token-render}

abbrev jar : List (Text × Text)
jar =
    (codes "theme", codes "csrf_token=x")
    ∷ (codes "csrf_token", codes "a1=b2")
    ∷ (codes "my_csrf_token", codes "no")
    ∷ []

finds_the_token : csrf_token (render jar) ≡ some (codes "a1=b2")
unfolding csrf_token render
finds_the_token = refl

csrf_token-render_example : csrf_token (render jar) ≡ lookup name_key jar
unfolding is_space
csrf_token-render_example = csrf_token-render jar (ground arith)

abbrev post : Request
post = record { method = codes "POST"; headers = (codes "accept", codes "*/*") ∷ [] }
