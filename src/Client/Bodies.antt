-- ===== src/Client/Bodies.antt =====
-- The body serializers for forms, frontend/src/lib/api/core/bodySerializer.gen.ts: the pairs of a
-- body, in their order. Values are no files. `JSON.stringify` is a parameter; its exception is `none`.
pub mod Pairs
mod Examples
use integr8s_code.Base.{
  ◌>>=◌, traverse, Option, none, some, List, [], ◌∷◌, ◌++◌, map, Text, if◌then◌else◌,
}
use integr8s_code.Client.Values.{Value, string, date, array, Values, elems, is_nullish}

abbrev pub Stringify : Type 0
Stringify = Value → Option Text

-- What `serializeUrlSearchParamsPair` appends.
unfoldable pub url_search_params_text : Stringify → Value → Option Text
url_search_params_text stringify (string s) = some s
url_search_params_text stringify v = stringify v

-- What `serializeFormDataPair` appends.
unfoldable pub form_data_text : Stringify → Value → Option Text
form_data_text stringify (string s) = some s
form_data_text stringify (date iso shown) = some iso
form_data_text stringify v = stringify v

-- The values that are appended under one key.
appended : Value → List Value
appended (array vs) = elems vs
appended v = if is_nullish v then [] else v ∷ []

unfoldable pub texts_of : (Value → Option Text) → Value → Option (List Text)
unfolding appended
texts_of text v = traverse text (appended v)

-- The loop over `Object.entries(body)`, which both serializers have.
unfoldable pub pairs_of : (Value → Option Text) → List (Text × Value) → Option (List (Text × Text))
unfolding texts_of
pairs_of text [] = some []
pairs_of text ((key, v) ∷ es) = do
  texts ← texts_of text v
  rest ← pairs_of text es
  some (map (λ t. (key, t)) texts ++ rest)

unfoldable pub form_data_body : Stringify → List (Text × Value) → Option (List (Text × Text))
unfolding pairs_of form_data_text
form_data_body stringify es = pairs_of (form_data_text stringify) es

-- `URLSearchParams.toString` is a parameter.
unfoldable pub url_search_params_body :
    (to_string : List (Text × Text) → Text) → Stringify → List (Text × Value) → Option Text
unfolding pairs_of url_search_params_text
url_search_params_body to_string stringify es =
    pairs_of (url_search_params_text stringify) es >>= λ pairs. some (to_string pairs)
