-- ===== src/Client/Values.antt =====
-- JavaScript's values, as far as the API client tells them apart. A number, a bigint and a function
-- come with the text that `String` makes of them, a date with its ISO text too; symbols are left out.
use integr8s_code.Base.{
  Bool, true, false, not, List, [], ◌∷◌, Text, codes, is_empty, text_eq, ◌||◌, join, if◌then◌else◌,
}

mutual
  pub data Value : Type 0 where
    undefined null : Value
    boolean : Bool → Value
    number bigint string callable : Text → Value
    date : (iso shown : Text) → Value
    search_params : (shown : Text) → List (Text × Text) → Value
    array : Values → Value
    object : Members → Value

  pub data Values : Type 0 where
    nil : Values
    cons : Value → Values → Values

  pub data Members : Type 0 where
    end : Members
    member : (key : Text) → Value → Members → Members

abbrev pub elems : Values → List Value
elems nil = []
elems (cons v vs) = v ∷ elems vs

-- `Object.entries`
abbrev pub entries : Members → List (Text × Value)
entries end = []
entries (member key v ms) = (key, v) ∷ entries ms

abbrev pub is_nullish : Value → Bool
is_nullish undefined = true
is_nullish null = true
is_nullish _ = false

-- `typeof value === 'object'` for a value that is not null.
abbrev pub is_object : Value → Bool
is_object (date _ _) = true
is_object (search_params _ _) = true
is_object (array _) = true
is_object (object _) = true
is_object _ = false

-- `String(value)`, and what `join` makes of an element.
unfoldable mutual
  pub as_text : Value → Text
  as_text undefined = codes "undefined"
  as_text null = codes "null"
  as_text (boolean true) = codes "true"
  as_text (boolean false) = codes "false"
  as_text (number s) = s
  as_text (bigint s) = s
  as_text (string s) = s
  as_text (callable s) = s
  as_text (date iso shown) = shown
  as_text (search_params shown _) = shown
  as_text (array vs) = join (b',' ∷ []) (element_texts vs)
  as_text (object _) = codes "[object Object]"

  pub element_texts : Values → List Text
  element_texts nil = []
  element_texts (cons v vs) = (if is_nullish v then [] else as_text v) ∷ element_texts vs

-- Whether a value counts as true.
unfoldable pub is_truthy : Value → Bool
unfolding text_eq
is_truthy undefined = false
is_truthy null = false
is_truthy (boolean b) = b
is_truthy (number s) = not (text_eq s (codes "0") || text_eq s (codes "NaN"))
is_truthy (bigint s) = not (text_eq s (codes "0"))
is_truthy (string s) = not (is_empty s)
is_truthy _ = true
