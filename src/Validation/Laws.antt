-- ===== src/Validation/Laws.antt =====
-- What a failed validation reads like.
use integr8s_code.Base.{
  ℕ, zero, suc, ℤ, ◌≡◌, ◌⊎◌, inl, inr, refl, ◌∙◌, Bool, true, false, Bool-cases, Option, none, some,
  List, ◌∷◌, ◌++◌, if◌then◌else◌, Text, codes, text_eq,
}
use integr8s_code.Formatters.{to_lower}
use integr8s_code.Validation.{
  Issue, too_small, too_big, invalid_format, invalid_type, invalid_union, invalid_value, other_code,
  Branches, no_more, branch, Issues, empty, issue, issue_message, union_message, branch_message,
  too_small_message, too_big_message, is_invalid_value, is_string, is_one, int_text, Report,
  last_entry, field_label, worded, first_issue,
}

-- `n` alternatives that are literals.
abbrev pub literals : ℕ → Branches → Branches
literals zero bs = bs
literals (suc n) bs = branch (issue invalid_value empty) (literals n bs)

union_message-literals : (n : ℕ) (bs : Branches) → union_message (literals n bs) ≡ union_message bs
unfolding issue_message
union_message-literals zero bs = refl
union_message-literals (suc n) bs = union_message-literals n bs

-- A union reports the rule of its first alternative that is no literal and failed: its first issue is
-- worded as if it stood alone, whatever literals come before it and whatever follows.
pub issue_message-literals :
    (n : ℕ) (first : Issue) (others : Issues) (more : Branches)
    → is_invalid_value first ≡ false
    → issue_message (invalid_union (literals n (branch (issue first others) more)))
      ≡ issue_message first
unfolding issue_message
issue_message-literals n first others more h =
    union_message-literals n (branch (issue first others) more) ∙ rw h

-- A message of the code: "Required", or a sentence that begins with "Must be ".
abbrev pub IsWorded : Text → Type 0
IsWorded m = (m ≡ codes "Required") ⊎ ((rest : Text) × (m ≡ codes "Must be " ++ rest))

abbrev pub IsWordedIfAny : Option Text → Type 0
IsWordedIfAny none = Unit
IsWordedIfAny (some m) = IsWorded m

too_small-IsWorded : (o : Text) (n : ℤ) → IsWorded (too_small_message o n)
unfolding too_small_message
too_small-IsWorded o n = elim (Bool-cases (is_string o)) [
  | inl h ↦ elim (Bool-cases (is_one n)) [
    | inl k ↦ inl (rw (h, k))
    | inr k ↦ inr (codes "at least " ++ (int_text n ++ codes " characters"), rw (h, k))
  ]
  | inr h ↦ inr (codes "at least " ++ int_text n, rw h)
]

too_big-IsWorded : (o : Text) (n : ℤ) → IsWorded (too_big_message o n)
unfolding too_big_message
too_big-IsWorded o n = elim (Bool-cases (is_string o)) [
  | inl h ↦ inr (codes "at most " ++ (int_text n ++ codes " characters"), rw h)
  | inr h ↦ inr (codes "at most " ++ int_text n, rw h)
]

if_IsWorded :
    (b : Bool) (x y : Option Text)
    → IsWordedIfAny x
    → IsWordedIfAny y
    → IsWordedIfAny (if b then x else y)
if_IsWorded true x y hx hy = hx
if_IsWorded false x y hx hy = hy

mutual
  unfolding issue_message

  issue_message-IsWorded : (i : Issue) → IsWordedIfAny (issue_message i)
  issue_message-IsWorded (too_small o n) = too_small-IsWorded o n
  issue_message-IsWorded (too_big o n) = too_big-IsWorded o n
  issue_message-IsWorded (invalid_format f) = inr (codes "a valid " ++ f, refl)
  issue_message-IsWorded (invalid_type true e) = inl refl
  issue_message-IsWorded (invalid_type false e) = inr (codes "a " ++ e, refl)
  issue_message-IsWorded (invalid_union bs) = union_message-IsWorded bs
  issue_message-IsWorded invalid_value = tt
  issue_message-IsWorded other_code = tt

  union_message-IsWorded : (bs : Branches) → IsWordedIfAny (union_message bs)
  union_message-IsWorded no_more = tt
  union_message-IsWorded (branch is more) =
      branch_message-IsWorded is (union_message more) (union_message-IsWorded more)

  branch_message-IsWorded :
      (is : Issues) (later : Option Text)
      → IsWordedIfAny later
      → IsWordedIfAny (branch_message is later)
  branch_message-IsWorded empty later h = h
  branch_message-IsWorded (issue first others) later h =
      if_IsWorded (is_invalid_value first) later (issue_message first) h
        (issue_message-IsWorded first)

-- The three sentences that a failed validation reads like.
abbrev pub IsSentence : Text → Text → Text → Type 0
IsSentence label message s =
    (s ≡ label ++ codes " is required")
    ⊎ (((rest : Text) × (s ≡ label ++ (codes " must be " ++ rest)))
        ⊎ (s ≡ label ++ (codes ": " ++ message)))

worded-IsSentence :
    (label message : Text) (m : Option Text)
    → IsWordedIfAny m
    → IsSentence label message (worded label m message)
unfolding worded text_eq to_lower
worded-IsSentence label message none h = inr (inr refl)
worded-IsSentence label message (some m) (inl e) = inl (rw e)
worded-IsSentence label message (some m) (inr (rest, e)) = inr (inl (rest, rw e))

-- The line shown for a failed validation is about its first issue only. It begins with the title of
-- the last key of that issue's path, or with "Value" if the path ends with no key or is empty, and
-- goes on with " is required", with " must be " and a rule, or with ": " and Zod's own message.
pub first_issue-IsSentence :
    (r : Report) (reports : List Report)
    → IsSentence (field_label (last_entry r.path)) r.message (first_issue (r ∷ reports))
unfolding first_issue
first_issue-IsSentence r reports =
    worded-IsSentence (field_label (last_entry r.path)) r.message (issue_message r.raised)
      (issue_message-IsWorded r.raised)
