-- ===== src/Client/Bodies/Examples.antt =====
-- The bodies of the login and of a form with a list.
use integr8s_code.Base.{◌≡◌, refl, true, false, none, some, List, [], ◌∷◌, Text, codes}
use integr8s_code.Client.Values.{Value, null, string, boolean, array, nil, cons}
use integr8s_code.Client.Bodies.{Stringify, url_search_params_text, texts_of, pairs_of}

-- JSON.stringify of booleans; other values are not in these bodies.
abbrev stringify : Stringify
stringify (boolean true) = some (codes "true")
stringify (boolean false) = some (codes "false")
stringify _ = none

abbrev login : List (Text × Value)
login =
    (codes "username", string (codes "ann"))
    ∷ (codes "scopes", array (cons (string (codes "a")) (cons (boolean true) nil)))
    ∷ (codes "client_id", null)
    ∷ []

pairs_of-run :
    pairs_of (url_search_params_text stringify) login
    ≡ some (
        (codes "username", codes "ann")
        ∷ (codes "scopes", codes "a")
        ∷ (codes "scopes", codes "true")
        ∷ [])
unfolding pairs_of texts_of url_search_params_text
pairs_of-run = refl
