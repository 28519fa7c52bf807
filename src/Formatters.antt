-- ===== src/Formatters.antt =====
-- How values read in the UI: frontend/src/lib/formatters.ts. Times are whole milliseconds, those of
-- a duration in seconds too; texts are lists of code units. What the browser and date-fns do is a
-- parameter, `Platform`.
pub mod Titles
pub mod Durations
pub mod Ages
pub mod Truncation
mod Examples
use integr8s_code.Base.{
  ℕ, zero, suc, ◌+◌, ◌-◌, ◌*◌, ◌/◌, ◌%◌, Bool, true, false, ◌&&◌, ◌||◌, Option, none, some, List,
  [], ◌∷◌, ◌++◌, map, ltb, leb, ◌==◌, if◌then◌else◌, Text, codes, is_empty, decimal_text, length,
  take, ℤ, pos, negsuc,
}

-- `parse_date` is `new Date(text).getTime()`, where `none` is NaN. A number of seconds that lies
-- half-way between two tenths is a double a little beside it, or on it, and `rounds_up` says which way
-- `toFixed(1)` takes it. The differences are those of date-fns, of a time and an earlier one.
pub record Platform : Type 0 where
  pub parse_date : Text → Option ℤ
  pub date_time : ℤ → Text
  pub date_only : ℤ → Text
  pub time_only : ℤ → Text
  pub rounds_up : (ms : ℕ) → Bool
  pub difference_in_seconds : ℤ → ℤ → ℕ
  pub difference_in_minutes : ℤ → ℤ → ℕ
  pub difference_in_hours : ℤ → ℤ → ℕ
  pub difference_in_days : ℤ → ℤ → ℕ

abbrev pub not_available : Text
not_available = codes "N/A"

-- `a - b` for two times.
unfoldable pub minus : ℤ → ℤ → ℤ
minus (pos a) (pos b) = if leb b a then pos (a - b) else negsuc (b - a - 1)
minus (pos a) (negsuc b) = pos (a + suc b)
minus (negsuc a) (pos b) = negsuc (a + b)
minus (negsuc a) (negsuc b) = if leb a b then pos (b - a) else negsuc (a - b - 1)

abbrev pub is_negative : ℤ → Bool
is_negative (pos n) = false
is_negative (negsuc n) = true

-- `null` and `undefined` are both `none`.
valid_text : Platform → Text → Option ℤ
valid_text p s = if is_empty s then none else p.parse_date s

unfoldable pub valid_date : Platform → Option Text → Option ℤ
unfolding valid_text
valid_date p none = none
valid_date p (some s) = valid_text p s

shown : Option ℤ → (ℤ → Text) → Text
shown none f = not_available
shown (some t) f = f t

unfoldable pub format_timestamp : Platform → Option Text → Text
unfolding valid_date shown
format_timestamp p s = shown (valid_date p s) p.date_time

unfoldable pub format_date_only : Platform → Option Text → Text
unfolding valid_date shown
format_date_only p s = shown (valid_date p s) p.date_only

unfoldable pub format_time_only : Platform → Option Text → Text
unfolding valid_date shown
format_time_only p s = shown (valid_date p s) p.time_only

-- `seconds.toFixed(1)`, in tenths.
unfoldable pub tenths : Platform → (ms : ℕ) → ℕ
tenths p ms =
    if ltb (ms % 100) 50
    then ms / 100
    else if ltb 50 (ms % 100) || p.rounds_up ms
    then ms / 100 + 1
    else ms / 100

to_fixed : Platform → (ms : ℕ) → Text
unfolding tenths
to_fixed p ms = decimal_text (tenths p ms / 10) ++ b'.' ∷ decimal_text (tenths p ms % 10)

abbrev with_rest : ℕ → ℕ → ℕ → ℕ → Text
with_rest n unit k sub =
    decimal_text n ++ unit ∷ (if ltb 0 k then b' ' ∷ (decimal_text k ++ sub ∷ []) else [])

-- A duration that is not negative.
format_span : Platform → (ms : ℕ) → Text
unfolding to_fixed
format_span p ms =
    if ltb ms 1000
    then decimal_text ms ++ codes "ms"
    else if ltb ms 60000
    then to_fixed p ms ++ codes "s"
    else if ltb ms 3600000
    then with_rest (ms / 60000) b'm' (ms % 60000 / 1000) b's'
    else with_rest (ms / 3600000) b'h' (ms % 3600000 / 60000) b'm'

unfoldable pub format_duration : Platform → Option ℤ → Text
unfolding format_span
format_duration p none = not_available
format_duration p (some (negsuc n)) = not_available
format_duration p (some (pos ms)) = format_span p ms

between : Platform → Option ℤ → Option ℤ → Text
between p none end = not_available
between p (some start) none = not_available
between p (some start) (some end) =
    if is_negative (minus end start)
    then not_available
    else format_duration p (some (minus end start))

unfoldable pub format_duration_between : Platform → Option Text → Option Text → Text
unfolding between valid_date minus format_duration
format_duration_between p start end = between p (valid_date p start) (valid_date p end)

relative : Platform → (now date : ℤ) → Text
relative p now date =
    let ago = λ (n unit : ℕ). decimal_text n ++ unit ∷ codes " ago" in
    if is_negative (minus now date)
    then p.date_only date
    else if ltb (p.difference_in_seconds now date) 60
    then codes "just now"
    else if ltb (p.difference_in_minutes now date) 60
    then ago (p.difference_in_minutes now date) b'm'
    else if ltb (p.difference_in_hours now date) 24
    then ago (p.difference_in_hours now date) b'h'
    else if ltb (p.difference_in_days now date) 7
    then ago (p.difference_in_days now date) b'd'
    else p.date_only date

unfoldable pub format_relative_time : Platform → (now : ℤ) → Option Text → Text
unfolding valid_date shown relative
format_relative_time p now s = shown (valid_date p s) (relative p now)

-- `str.slice(0, maxLength - 3)`: a negative end counts from the end of the text.
abbrev pub slice_end : Text → (max_length : ℕ) → ℕ
slice_end s max_length = if leb 3 max_length then max_length - 3 else length s - (3 - max_length)

truncate_text : Text → ℕ → Text
truncate_text s max_length =
    if leb (length s) max_length then s else take (slice_end s max_length) s ++ codes "..."

unfoldable pub truncate : Option Text → (max_length : ℕ) → Text
unfolding truncate_text
truncate none max_length = []
truncate (some s) max_length = truncate_text s max_length

unfoldable pub format_boolean : Bool → Text
format_boolean b = if b then codes "Yes" else codes "No"

unfoldable pub is_upper : ℕ → Bool
is_upper c = leb b'A' c && leb c b'Z'

unfoldable pub is_lower : ℕ → Bool
is_lower c = leb b'a' c && leb c b'z'

unfoldable pub is_letter : ℕ → Bool
unfolding is_upper is_lower
is_letter c = is_upper c || is_lower c

unfoldable pub to_upper : ℕ → ℕ
unfolding is_lower
to_upper c = if is_lower c then c - 32 else c

unfoldable pub to_lower : ℕ → ℕ
unfolding is_upper
to_lower c = if is_upper c then c + 32 else c

-- `/[a-z]+/gi`, each match with its first letter in upper case and the others in lower case;
-- `inside` says that the unit before was a letter.
unfoldable pub title_unit : (inside : Bool) → ℕ → ℕ
unfolding is_letter to_upper to_lower
title_unit inside c = if is_letter c then (if inside then to_lower c else to_upper c) else c

unfoldable pub title_words : (inside : Bool) → Text → Text
title_words inside [] = []
title_words inside (c ∷ s) = title_unit inside c ∷ title_words (is_letter c) s

abbrev pub space_for : ℕ → ℕ
space_for c = if c == b'_' then b' ' else c

unfoldable pub field_title : Text → Text
unfolding title_words
field_title key = map space_for (title_words false key)
