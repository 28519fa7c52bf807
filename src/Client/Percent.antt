-- ===== src/Client/Percent.antt =====
-- JavaScript's `encodeURIComponent` over UTF-16 code units; `none` is the URIError of a surrogate
-- without its partner.
pub mod Laws
use integr8s_code.Base.{
  ℕ, ◌+◌, ◌-◌, ◌*◌, ◌/◌, ◌%◌, Bool, true, false, ◌&&◌, ◌||◌, Option, none, some, List, [], ◌∷◌,
  ◌++◌, map, ltb, leb, ◌==◌, if◌then◌else◌, Text, codes, any, ◌>>=◌,
}

-- Letters, digits and `-_.!~*'()`.
unfoldable pub is_unreserved : ℕ → Bool
is_unreserved c =
    (leb b'a' c && leb c b'z')
    || (leb b'A' c && leb c b'Z')
    || (leb b'0' c && leb c b'9')
    || c == b'-'
    || c == b'_'
    || c == b'.'
    || c == b'!'
    || c == b'~'
    || c == b'*'
    || c == 39
    || c == b'('
    || c == b')'

pub hex_digit : ℕ → ℕ
hex_digit n = if ltb n 10 then b'0' + n else b'A' + (n - 10)

pub percent_byte : ℕ → Text
unfolding hex_digit
percent_byte n = b'%' ∷ hex_digit (n / 16) ∷ hex_digit (n % 16) ∷ []

pub percent_bytes : List ℕ → Text
unfolding percent_byte
percent_bytes [] = []
percent_bytes (n ∷ ns) = percent_byte n ++ percent_bytes ns

-- The bytes of a code point in UTF-8.
abbrev pub utf8 : ℕ → List ℕ
utf8 n =
    if ltb n 0x80
    then n ∷ []
    else if ltb n 0x800
    then (0xc0 + n / 64) ∷ (0x80 + n % 64) ∷ []
    else if ltb n 0x10000
    then (0xe0 + n / 4096) ∷ (0x80 + n / 64 % 64) ∷ (0x80 + n % 64) ∷ []
    else (0xf0 + n / 262144) ∷ (0x80 + n / 4096 % 64) ∷ (0x80 + n / 64 % 64) ∷ (0x80 + n % 64) ∷ []

pub is_high : ℕ → Bool
is_high c = leb 0xd800 c && ltb c 0xdc00

pub is_low : ℕ → Bool
is_low c = leb 0xdc00 c && ltb c 0xe000

-- One code unit that is no surrogate.
pub encode_unit : ℕ → Text
unfolding is_unreserved percent_bytes
encode_unit c = if is_unreserved c then c ∷ [] else percent_bytes (utf8 c)

pub encode_pair : ℕ → ℕ → Text
unfolding percent_bytes
encode_pair c d = percent_bytes (utf8 (0x10000 + (c - 0xd800) * 1024 + (d - 0xdc00)))

abbrev pub prepend : Text → Option Text → Option Text
prepend s none = none
prepend s (some t) = some (s ++ t)

unfoldable pub encode_uri_component : Text → Option Text
unfolding is_high is_low encode_unit encode_pair
encode_uri_component [] = some []
encode_uri_component (c ∷ []) = if is_high c || is_low c then none else some (encode_unit c)
encode_uri_component (c ∷ d ∷ s) =
    let behind = encode_uri_component s in
    let rest = encode_uri_component (d ∷ s) in
    if is_high c
    then (if is_low d then prepend (encode_pair c d) behind else none)
    else if is_low c
    then none
    else prepend (encode_unit c) rest
