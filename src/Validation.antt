-- ===== src/Validation.antt =====
-- The wording of validation errors: frontend/src/lib/validation.ts. An issue is what Zod raises, as
-- far as the code looks into it; limits are whole numbers.
pub mod Laws
mod Examples
use integr8s_code.Base.{
  ℕ, suc, ◌-◌, Bool, true, false, Option, none, some, List, [], ◌∷◌, ◌++◌, ◌==◌, if◌then◌else◌,
  Text, codes, text_eq, decimal_text, ℤ, pos, negsuc,
}
use integr8s_code.Formatters.{field_title, to_lower}

-- The errors of a union are a list of branches, each the list of one alternative's issues.
mutual
  pub data Issue : Type 0 where
    too_small : (origin : Text) → (minimum : ℤ) → Issue
    too_big : (origin : Text) → (maximum : ℤ) → Issue
    invalid_format : (format : Text) → Issue
    invalid_type : (input_undefined : Bool) → (expected : Text) → Issue
    invalid_union : Branches → Issue
    invalid_value : Issue
    other_code : Issue

  pub data Branches : Type 0 where
    no_more : Branches
    branch : Issues → Branches → Branches

  pub data Issues : Type 0 where
    empty : Issues
    issue : Issue → Issues → Issues

unfoldable pub int_text : ℤ → Text
int_text (pos n) = decimal_text n
int_text (negsuc n) = b'-' ∷ decimal_text (suc n)

abbrev pub is_string : Text → Bool
is_string origin = text_eq origin (codes "string")

abbrev pub is_one : ℤ → Bool
is_one (pos n) = n == 1
is_one (negsuc n) = false

unfoldable pub too_small_message : Text → ℤ → Text
unfolding int_text text_eq
too_small_message origin minimum =
    if is_string origin
    then (if is_one minimum
        then codes "Required"
        else codes "Must be at least " ++ (int_text minimum ++ codes " characters"))
    else codes "Must be at least " ++ int_text minimum

unfoldable pub too_big_message : Text → ℤ → Text
unfolding int_text text_eq
too_big_message origin maximum =
    if is_string origin
    then codes "Must be at most " ++ (int_text maximum ++ codes " characters")
    else codes "Must be at most " ++ int_text maximum

abbrev pub is_invalid_value : Issue → Bool
is_invalid_value invalid_value = true
is_invalid_value _ = false

-- `undefined` is `none`.
unfoldable mutual
  unfolding too_small_message too_big_message

  pub issue_message : Issue → Option Text
  issue_message (too_small origin minimum) = some (too_small_message origin minimum)
  issue_message (too_big origin maximum) = some (too_big_message origin maximum)
  issue_message (invalid_format format) = some (codes "Must be a valid " ++ format)
  issue_message (invalid_type input_undefined expected) =
      some (if input_undefined then codes "Required" else codes "Must be a " ++ expected)
  issue_message (invalid_union errors) = union_message errors
  issue_message invalid_value = none
  issue_message other_code = none

  pub union_message : Branches → Option Text
  union_message no_more = none
  union_message (branch issues more) = branch_message issues (union_message more)

  pub branch_message : Issues → Option Text → Option Text
  branch_message empty later = later
  branch_message (issue first others) later =
      if is_invalid_value first then later else issue_message first

-- An entry of a path is a key, or an index or symbol.
pub data PathEntry : Type 0 where
  key : Text → PathEntry
  no_key : PathEntry

pub record Report : Type 0 where
  pub raised : Issue
  pub path : List PathEntry
  pub message : Text

-- `path.at(-1)`
abbrev pub last_entry : List PathEntry → Option PathEntry
last_entry [] = none
last_entry (e ∷ []) = some e
last_entry (e ∷ f ∷ path) = last_entry (f ∷ path)

unfoldable pub field_label : Option PathEntry → Text
field_label (some (key k)) = field_title k
field_label _ = codes "Value"

-- The message with its first letter in lower case.
abbrev pub lower_first : Text → Text
lower_first [] = []
lower_first (c ∷ s) = to_lower c ∷ s

worded : Text → Option Text → Text → Text
worded label none message = label ++ (codes ": " ++ message)
worded label (some m) message =
    if text_eq m (codes "Required")
    then label ++ codes " is required"
    else label ++ b' ' ∷ lower_first m

unfoldable pub first_issue : List Report → Text
unfolding worded field_label issue_message
first_issue [] = codes "Invalid input"
first_issue (r ∷ reports) =
    worded (field_label (last_entry r.path)) (issue_message r.raised) r.message
