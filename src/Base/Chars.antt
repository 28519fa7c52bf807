-- ===== src/Base/Chars.antt =====
-- Text that the program walks, as the list of its UTF-16 code units. A text that is only compared
-- or shown stays a native `String`.
use Prim.Native.Nat.{ℕ, zero, suc, ◌+◌, ◌/◌, ◌%◌}
use Prim.Native.Char.{code}
use Prim.Native.String
use Prim.Native.String.{String}
use mathlib.Core.Path.{◌≡◌, refl, ap, ◌∙◌}
use mathlib.Core.Logic.{◌↔◌, ◌≢◌}
use mathlib.Core.Bool.{Bool, true, false, ◌&&◌, ◌||◌}
use mathlib.Core.List.{List, [], ◌∷◌, ◌++◌}
use mathlib.Core.Option.{Option, none, some}
use native.Mathlib.Omega.{arith}
use integr8s_code.Base.Tests.{ltb, leb, ◌==◌, if◌then◌else◌}
use integr8s_code.Base.Lists.{get_elem?, All}

abbrev pub Text : Type 0
Text = List ℕ

-- The code units of an ASCII literal.
abbrev pub codes : String → Text
codes String.[] = []
codes (String.◌∷◌ c s) = code c ∷ codes s

abbrev pub is_empty {ℓ} : {A : Type ℓ} → List A → Bool
is_empty [] = true
is_empty (x ∷ xs) = false

unfoldable pub text_eq : Text → Text → Bool
text_eq [] [] = true
text_eq [] (_ ∷ _) = false
text_eq (_ ∷ _) [] = false
text_eq (a ∷ s) (b ∷ t) = a == b && text_eq s t

pub text_eq_refl : (s : Text) → text_eq s s ≡ true
unfolding text_eq
text_eq_refl [] = refl
text_eq_refl (a ∷ s) = ground (arith, text_eq_refl s)

pub text_eq→eq : (s t : Text) → text_eq s t ≡ true → s ≡ t
unfolding text_eq
text_eq→eq [] [] h = refl
text_eq→eq [] (_ ∷ _) h = absurd (cc)
text_eq→eq (_ ∷ _) [] h = absurd (cc)
text_eq→eq (a ∷ s) (b ∷ t) h = ground (arith, text_eq→eq s t)

pub text_eq_iff : (s t : Text) → (text_eq s t ≡ true) ↔ (s ≡ t)
text_eq_iff s t = (text_eq→eq s t, λ e. rw e (text_eq_refl t))

-- `s.startsWith(p)` with what follows: the rest of `s` behind the prefix `p`.
unfoldable pub strip_prefix : Text → Text → Option Text
strip_prefix [] s = some s
strip_prefix (_ ∷ _) [] = none
strip_prefix (a ∷ p) (b ∷ s) = if a == b then strip_prefix p s else none

abbrev pub is_some {ℓ} : {A : Type ℓ} → Option A → Bool
is_some none = false
is_some (some _) = true

-- `s.startsWith(part)`
abbrev pub starts_with : Text → (part : Text) → Bool
unfolding strip_prefix
starts_with s part = is_some (strip_prefix part s)

-- `s.includes(part)`
unfoldable pub includes : Text → (part : Text) → Bool
unfolding strip_prefix
includes [] part = starts_with [] part
includes (c ∷ s) part = starts_with (c ∷ s) part || includes s part

-- `s.endsWith(part)`
unfoldable pub ends_with : Text → (part : Text) → Bool
unfolding text_eq
ends_with [] part = text_eq [] part
ends_with (c ∷ s) part = text_eq (c ∷ s) part || ends_with s part

pub strip_prefix-append : (p s : Text) → strip_prefix p (p ++ s) ≡ some s
unfolding strip_prefix
strip_prefix-append [] s = refl
strip_prefix-append (a ∷ p) s = ground (arith, strip_prefix-append p s)

-- JavaScript's `\s`, which is also what `trim` removes.
unfoldable pub is_space : ℕ → Bool
is_space c =
    (leb 9 c && leb c 13)
    || c == 32
    || c == 160
    || c == 0x1680
    || (leb 0x2000 c && leb c 0x200a)
    || c == 0x2028
    || c == 0x2029
    || c == 0x202f
    || c == 0x205f
    || c == 0x3000
    || c == 0xfeff

-- `s.replace(/^\s*/, '')`.
unfoldable pub skip_spaces : Text → Text
unfolding is_space
skip_spaces [] = []
skip_spaces (c ∷ s) = if is_space c then skip_spaces s else c ∷ s

trim_end : Text → Text
unfolding is_space
trim_end [] = []
trim_end (c ∷ s) =
    let rest = trim_end s in if is_empty rest then (if is_space c then [] else c ∷ []) else c ∷ rest

-- `s.trim()`
unfoldable pub trim : Text → Text
unfolding skip_spaces trim_end
trim s = skip_spaces (trim_end s)

-- A text without white space.
abbrev pub IsSpaceless : Text → Type 0
IsSpaceless = All (λ c. is_space c ≡ false)

trim_end_id : (t : Text) → IsSpaceless t → trim_end t ≡ t
unfolding trim_end
trim_end_id [] h = refl
trim_end_id (c ∷ t) h = rw (trim_end_id t h.1, h.0) (ground arith)

pub trim_id : (t : Text) → IsSpaceless t → trim t ≡ t
unfolding trim skip_spaces
trim_id [] h = refl
trim_id (c ∷ t) h = ap skip_spaces (trim_end_id (c ∷ t) h) ∙ rw (h.0) refl

-- The first match of `[^c]*` at the start of a text.
unfoldable pub until : ℕ → Text → Text
until c [] = []
until c (d ∷ s) = if d == c then [] else d ∷ until c s

-- A text in which a code unit does not occur.
abbrev pub Lacks : ℕ → Text → Type 0
Lacks c s = All (λ d. d ≢ c) s

pub until-append : (c : ℕ) (s t : Text) → Lacks c s → until c (s ++ c ∷ t) ≡ s
unfolding until
until-append c [] t h = ground arith
until-append c (d ∷ s) t h = ground (arith, until-append c s t h.1)

pub until_of_Lacks : (c : ℕ) (s : Text) → Lacks c s → until c s ≡ s
unfolding until
until_of_Lacks c [] h = refl
until_of_Lacks c (d ∷ s) h = ground (arith, until_of_Lacks c s h.1)

-- A number in decimal, as a template literal prints it. Each round divides by ten, so a number
-- is never out of fuel when the fuel is above it.
abbrev digits : List String
digits = "0" ∷ "1" ∷ "2" ∷ "3" ∷ "4" ∷ "5" ∷ "6" ∷ "7" ∷ "8" ∷ "9" ∷ []

digit : ℕ → String
digit n = elim (get_elem? digits n) [ some d ↦ d | none ↦ "" ]

decimal_from : ℕ → ℕ → String
unfolding digit
decimal_from zero n = ""
decimal_from (suc fuel) n =
    let front = decimal_from fuel (n / 10) in
    if ltb n 10 then digit n else String.◌++◌ front (digit (n % 10))

unfoldable pub decimal : ℕ → String
unfolding decimal_from
decimal n = decimal_from (suc n) n

decimal_423 : decimal 423 ≡ "423"
unfolding decimal
decimal_423 = refl

-- The same as a text.
decimal_text_from : ℕ → ℕ → Text
decimal_text_from zero n = []
decimal_text_from (suc fuel) n =
    let front = decimal_text_from fuel (n / 10) in
    if ltb n 10 then (b'0' + n) ∷ [] else front ++ (b'0' + n % 10) ∷ []

unfoldable pub decimal_text : ℕ → Text
unfolding decimal_text_from
decimal_text n = decimal_text_from (suc n) n

-- The last code unit of a text, or another if it has none.
unfoldable pub last_or : ℕ → Text → ℕ
last_or d [] = d
last_or d (c ∷ s) = last_or c s

pub last_or-append : (d c : ℕ) (s t : Text) → last_or d (s ++ c ∷ t) ≡ last_or c t
unfolding last_or
last_or-append d c [] t = refl
last_or-append d c (e ∷ s) t = last_or-append e c s t
