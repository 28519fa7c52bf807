-- ===== src/Formatters/Titles.antt =====
-- Labels of fields.
use integr8s_code.Base.{
  ℕ, ◌≡◌, refl, ap, ap₂, arith, Bool, true, false, List, [], ◌∷◌, ◌++◌, map, Text, All,
}
use integr8s_code.Formatters.{
  is_letter, to_upper, to_lower, title_unit, title_words, space_for, field_title,
}

unit-letter : (inside : Bool) (c : ℕ) → is_letter (space_for (title_unit inside c)) ≡ is_letter c
unfolding title_unit
unit-letter inside c = ground arith

unit_again :
    (inside : Bool) (c : ℕ)
    → space_for (title_unit inside (space_for (title_unit inside c)))
      ≡ space_for (title_unit inside c)
unfolding title_unit
unit_again inside c = ground arith

title_again :
    (inside : Bool) (s : Text)
    → map space_for (title_words inside (map space_for (title_words inside s)))
      ≡ map space_for (title_words inside s)
unfolding title_words
title_again inside [] = refl
title_again inside (c ∷ s) =
    rw (unit-letter inside c)
      (ap₂ (λ d t. d ∷ t) (unit_again inside c) (title_again (is_letter c) s))

-- The title of a title is the title: a label may be titled twice.
pub field_title_idempotent : (key : Text) → field_title (field_title key) ≡ field_title key
unfolding field_title
field_title_idempotent key = title_again false key

abbrev pub IsWord : Text → Type 0
IsWord [] = ⊥
IsWord (c ∷ s) = All (λ d. is_letter d ≡ true) (c ∷ s)

abbrev pub capitalized : Text → Text
capitalized [] = []
capitalized (c ∷ s) = to_upper c ∷ map to_lower s

abbrev pub joined_by : ℕ → List Text → Text
joined_by c [] = []
joined_by c (w ∷ []) = w
joined_by c (w ∷ v ∷ ws) = w ++ c ∷ joined_by c (v ∷ ws)

unit-inside : (c : ℕ) → is_letter c ≡ true → space_for (title_unit true c) ≡ to_lower c
unfolding title_unit
unit-inside c h = ground arith

unit-first : (c : ℕ) → is_letter c ≡ true → space_for (title_unit false c) ≡ to_upper c
unfolding title_unit
unit-first c h = ground arith

unit-underscore : (inside : Bool) → space_for (title_unit inside b'_') ≡ b' '
unfolding title_unit
unit-underscore inside = refl

underscore_no_letter : is_letter b'_' ≡ false
unfolding is_letter
underscore_no_letter = refl

-- The units of a word behind its first.
inside_word :
    (w r : Text)
    → All (λ d. is_letter d ≡ true) w
    → map space_for (title_words true (w ++ b'_' ∷ r))
      ≡ map to_lower w ++ b' ' ∷ map space_for (title_words false r)
unfolding title_words
inside_word [] r h = rw (unit-underscore true, underscore_no_letter)
inside_word (c ∷ w) r h = rw (unit-inside c h.0, h.0, inside_word w r h.1)

inside_last :
    (w : Text)
    → All (λ d. is_letter d ≡ true) w
    → map space_for (title_words true w) ≡ map to_lower w
unfolding title_words
inside_last [] h = refl
inside_last (c ∷ w) h = rw (unit-inside c h.0, h.0, inside_last w h.1)

-- A key of words of letters, joined by underscores, reads as the same words, each with a capital
-- letter and the rest in lower case, joined by spaces.
pub field_title-joined_by :
    (words : List Text)
    → All IsWord words
    → field_title (joined_by b'_' words) ≡ joined_by b' ' (map capitalized words)
unfolding field_title title_words
field_title-joined_by [] h = refl
field_title-joined_by ([] ∷ words) h = absurd h.0
field_title-joined_by ((c ∷ s) ∷ []) h = rw (unit-first c h.0.0, h.0.0, inside_last s h.0.1)
field_title-joined_by ((c ∷ s) ∷ v ∷ words) h =
    rw (unit-first c h.0.0, h.0.0, inside_word s (joined_by b'_' (v ∷ words)) h.0.1)
      (ap (λ t. to_upper c ∷ (map to_lower s ++ b' ' ∷ t)) (field_title-joined_by (v ∷ words) h.1))
