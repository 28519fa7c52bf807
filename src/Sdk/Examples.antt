-- ===== src/Sdk/Examples.antt =====
-- Runs of the SDK's calls and keys.
use integr8s_code.Base.{
  ◌≡◌, ◌↔◌, refl, Bool, true, ℕ, none, List, [], ◌∷◌, Text, codes, text_eq, text_eq_refl,
}
use integr8s_code.Client.Values.{Value, string, object, member, end}
use integr8s_code.Sdk.Operations.Users.{list_users_api_v1_admin_users_get}
use integr8s_code.Sdk.Keys.{KeyOptions, no_options, query_key, matches}
use integr8s_code.Sdk.Keys.Matching.{matches-operations}

abbrev path : List (Text × Value)
path = (codes "execution_id", string (codes "../users")) ∷ []

-- A match of values that looks at texts.
abbrev deep : Value → Value → Bool
deep (string s) (string t) = text_eq s t
deep _ _ = true

deep_refl : (v : Value) → deep v v ≡ true
deep_refl (string s) = text_eq_refl s
deep_refl _ = refl

abbrev found : KeyOptions
found = record no_options { query = object (member (codes "search") (string (codes "ann")) end) }

matches-operations_example :
    (matches deep
        (query_key none list_users_api_v1_admin_users_get no_options)
        (query_key none list_users_api_v1_admin_users_get found)
      ≡ true)
    ↔ ◌≡◌ {A = ℕ} 43 43
matches-operations_example =
    matches-operations deep (λ s t. refl) deep_refl none 43 43 list_users_api_v1_admin_users_get
      list_users_api_v1_admin_users_get found refl refl refl
