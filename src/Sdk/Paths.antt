-- ===== src/Sdk/Paths.antt =====
-- Where the SDK's calls go.
use integr8s_code.Base.{
  ℕ, ◌+◌, ◌≡◌, Bool, true, ◌==◌, Option, none, some, is_some, List, [], ◌∷◌, if◌then◌else◌, Text,
}
use integr8s_code.Client.Values.{Value, as_text}
use integr8s_code.Client.Percent.{encode_uri_component}
use integr8s_code.Client.Path.{value_in}
use integr8s_code.Client.Path.Filling.{IsGiven}

-- How often a code unit occurs.
abbrev pub count : ℕ → Text → ℕ
count c [] = 0
count c (d ∷ s) = (if d == c then 1 else 0) + count c s

-- Each placeholder is given a value that can be encoded.
abbrev pub IsFilled : List (Text × Value) → Text × Text → Type 0
IsFilled path (piece, name) =
    IsGiven path (piece, name)
    × (is_some (encode_uri_component (as_text (value_in path name))) ≡ true)

abbrev all_or_true : {A : Type 0} → (A → Bool) → Option A → Bool
all_or_true p none = true
all_or_true p (some x) = p x
