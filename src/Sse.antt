-- ===== src/Sse.antt =====
-- The event stream client, frontend/src/lib/api/core/serverSentEvents.gen.ts: this file is the
-- parser of one connection's text, `Sse.Connection` the reads of one connection, and
-- `Sse.Reconnect` the loop that connects again. Texts are lists of UTF-16 code units.
pub mod Connection
pub mod Splitting
pub mod Framing
pub mod Encoding
pub mod Reconnect
pub mod LineEnds
pub mod Bounds
pub mod Backoff
pub mod Resume
mod Examples
use integr8s_code.Base.{
  ℕ, zero, suc, ◌+◌, ◌-◌, ◌*◌, Bool, true, false, ◌&&◌, ◌||◌, Option, none, some, List, [], ◌∷◌,
  ◌++◌, leb, ◌==◌, if◌then◌else◌, Text, codes, is_empty, strip_prefix, skip_spaces, ℤ, pos, negsuc,
}

abbrev pub lf : ℕ
lf = 10

abbrev pub cr : ℕ
cr = 13

-- `buffer.replace(/\r\n?/g, '\n')`
unfoldable pub normalize : Text → Text
normalize [] = []
normalize (c ∷ []) = (if c == cr then lf else c) ∷ []
normalize (c ∷ d ∷ s) =
    let pair = normalize s in
    let rest = normalize (d ∷ s) in
    if c == cr then (if d == lf then lf ∷ pair else lf ∷ rest) else c ∷ rest

-- One unit more in front of the first piece of a split.
abbrev pub cons_first : ℕ → List Text × Text → List Text × Text
cons_first c ([], rest) = ([], c ∷ rest)
cons_first c (piece ∷ pieces, rest) = ((c ∷ piece) ∷ pieces, rest)

abbrev pub cons_piece : List Text × Text → List Text × Text
cons_piece (pieces, rest) = ([] ∷ pieces, rest)

-- `buffer.split('\n\n')`, with its last piece (which `pop` takes off) apart.
unfoldable pub split_chunks : Text → List Text × Text
split_chunks [] = ([], [])
split_chunks (c ∷ []) = ([], c ∷ [])
split_chunks (c ∷ d ∷ s) =
    let after = split_chunks s in
    let more = split_chunks (d ∷ s) in
    if c == lf && d == lf then cons_piece after else cons_first c more

-- `chunk.split('\n')`
abbrev pub cons_line : ℕ → List Text → List Text
cons_line c [] = (c ∷ []) ∷ []
cons_line c (line ∷ lines) = (c ∷ line) ∷ lines

unfoldable pub split_lines : Text → List Text
split_lines [] = [] ∷ []
split_lines (c ∷ s) = let rest = split_lines s in if c == lf then [] ∷ rest else cons_line c rest

pub data Line : Type 0 where
  data_line event_line id_line retry_line : Text → Line
  other_line : Line

-- The first of the prefixes that the line starts with; the value is the line without the prefix and
-- the spaces behind it.
field_of : List (Text × (Text → Line)) → Text → Line
unfolding strip_prefix skip_spaces
field_of [] line = other_line
field_of ((prefix, field) ∷ fields) line =
    let next = field_of fields line in
    elim (strip_prefix prefix line) [ some rest ↦ field (skip_spaces rest) | none ↦ next ]

abbrev pub fields : List (Text × (Text → Line))
fields =
    (codes "data:", data_line)
    ∷ (codes "event:", event_line)
    ∷ (codes "id:", id_line)
    ∷ (codes "retry:", retry_line)
    ∷ []

unfoldable pub classify : Text → Line
unfolding field_of
classify line = field_of fields line

is_digit : ℕ → Bool
is_digit c = leb b'0' c && leb c b'9'

digits_from : ℕ → Text → ℕ
unfolding is_digit
digits_from acc [] = acc
digits_from acc (c ∷ s) =
    let rest = digits_from (acc * 10 + (c - b'0')) s in if is_digit c then rest else acc

magnitude : Text → Option ℕ
unfolding digits_from
magnitude [] = none
magnitude (c ∷ s) = if is_digit c then some (digits_from 0 (c ∷ s)) else none

negated : Option ℕ → Option ℤ
negated none = none
negated (some zero) = some (pos 0)
negated (some (suc n)) = some (negsuc n)

positive : Option ℕ → Option ℤ
positive none = none
positive (some n) = some (pos n)

signed : Text → Option ℤ
unfolding magnitude negated positive
signed [] = none
signed (c ∷ s) =
    if c == b'-'
    then negated (magnitude s)
    else if c == b'+'
    then positive (magnitude s)
    else positive (magnitude (c ∷ s))

-- `Number.parseInt(s, 10)`; `none` is NaN.
unfoldable pub parse_int : Text → Option ℤ
unfolding signed skip_spaces
parse_int s = signed (skip_spaces s)

-- What outlives a connection.
pub record Memory : Type 0 where
  pub last_event_id : Option Text
  pub retry_delay : ℤ

-- The variables of one round of `for (const chunk of chunks)`.
pub record Fields : Type 0 where
  pub data_lines : List Text
  pub event_name : Option Text
  pub memory : Memory

abbrev pub set_delay : Option ℤ → Memory → Memory
set_delay none m = m
set_delay (some delay) m = record m { retry_delay = delay }

unfoldable pub apply_line : Line → Fields → Fields
unfolding parse_int
apply_line (data_line v) f = record f { data_lines = f.data_lines ++ v ∷ [] }
apply_line (event_line v) f = record f { event_name = some v }
apply_line (id_line v) f = record f { memory = record (f.memory) { last_event_id = some v } }
apply_line (retry_line v) f = record f { memory = set_delay (parse_int v) f.memory }
apply_line other_line f = f

unfoldable pub apply_lines : List Text → Fields → Fields
unfolding apply_line classify
apply_lines [] f = f
apply_lines (line ∷ lines) f = apply_lines lines (apply_line (classify line) f)

-- `dataLines.join('\n')`
unfoldable pub join_lines : List Text → Text
join_lines [] = []
join_lines (line ∷ []) = line
join_lines (line ∷ next ∷ lines) = line ++ lf ∷ join_lines (next ∷ lines)
