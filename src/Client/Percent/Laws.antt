-- ===== src/Client/Percent/Laws.antt =====
-- Which code units an encoded text has.
use integr8s_code.Base.{
  subst, false≢true, Lacks, ◌*◌, all, all-append, holds_below, holds_below-at, ℕ, ◌+◌, ◌-◌, ◌<◌,
  ◌≡◌, refl, sym, ap, ◌∙◌, inl, inr, arith, Bool, true, false, Bool-cases, ◌||◌, Option, none, some,
  List, [], ◌∷◌, ◌==◌, Text, All,
}
use integr8s_code.Client.Percent.{
  is_unreserved, hex_digit, percent_byte, percent_bytes, utf8, is_high, is_low, encode_unit,
  encode_pair, prepend, encode_uri_component,
}

-- Code units of UTF-16.
abbrev pub IsUnits : Text → Type 0
IsUnits s = All (λ c. c < 65536) s

-- Code units that stay as they are, and the percent sign.
abbrev pub is_encoded : ℕ → Bool
is_encoded c = is_unreserved c || c == b'%'

abbrev pub IsEncoded : Text → Type 0
IsEncoded s = all is_encoded s ≡ true

percent_byte_table : holds_below (λ n. all is_encoded (percent_byte n)) 256 ≡ true
unfolding holds_below percent_byte hex_digit is_unreserved
percent_byte_table = refl

percent_byte-IsEncoded : (n : ℕ) → n < 256 → IsEncoded (percent_byte n)
percent_byte-IsEncoded n h = holds_below-at _ 256 n percent_byte_table h

percent_bytes-IsEncoded : (ns : List ℕ) → All (λ n. n < 256) ns → IsEncoded (percent_bytes ns)
unfolding percent_bytes
percent_bytes-IsEncoded [] h = refl
percent_bytes-IsEncoded (n ∷ ns) h =
    all-append is_encoded (percent_byte n) (percent_bytes ns) (percent_byte-IsEncoded n h.0)
      (percent_bytes-IsEncoded ns h.1)

utf8-bytes : (n : ℕ) → n < 0x110000 → All (λ b. b < 256) (utf8 n)
utf8-bytes n h = ground arith

encode_unit-IsEncoded : (c : ℕ) → c < 65536 → IsEncoded (encode_unit c)
unfolding encode_unit
encode_unit-IsEncoded c h = elim (Bool-cases (is_unreserved c)) [
  | inl e ↦ rw e (ground (arith, e))
  | inr e ↦ rw e (percent_bytes-IsEncoded (utf8 c) (utf8-bytes c (omega arith)))
]

encode_pair-IsEncoded : (c d : ℕ) → c < 0xdc00 → d < 0xe000 → IsEncoded (encode_pair c d)
unfolding encode_pair
encode_pair-IsEncoded c d h k =
    let n = 0x10000 + (c - 0xd800) * 1024 + (d - 0xdc00) in
    percent_bytes-IsEncoded (utf8 n) (utf8-bytes n (omega arith))

is_high-lt : (c : ℕ) → is_high c ≡ true → c < 0xdc00
unfolding is_high
is_high-lt c h = ground (arith, h)

is_low-lt : (c : ℕ) → is_low c ≡ true → c < 0xe000
unfolding is_low
is_low-lt c h = ground (arith, h)

-- What encoding gives, where it gives something.
abbrev IsEncodedIfAny : Option Text → Type 0
IsEncodedIfAny none = Unit
IsEncodedIfAny (some t) = IsEncoded t

prepend-IsEncodedIfAny :
    (s : Text) (o : Option Text) → IsEncoded s → IsEncodedIfAny o → IsEncodedIfAny (prepend s o)
prepend-IsEncodedIfAny s none h k = tt
prepend-IsEncodedIfAny s (some t) h k = all-append is_encoded s t h k

encoded-IsEncodedIfAny : (s : Text) → IsUnits s → IsEncodedIfAny (encode_uri_component s)
unfolding encode_uri_component
encoded-IsEncodedIfAny [] h = refl
encoded-IsEncodedIfAny (c ∷ []) h = elim (Bool-cases (is_high c || is_low c)) [
  | inl e ↦ rw e tt
  | inr e ↦ rw e (encode_unit-IsEncoded c h.0)
]
encoded-IsEncodedIfAny (c ∷ d ∷ s) h = elim (Bool-cases (is_high c)) [
  | inl e ↦ elim (Bool-cases (is_low d)) [
    | inl f ↦
        rw (e, f)
          (prepend-IsEncodedIfAny (encode_pair c d) (encode_uri_component s)
            (encode_pair-IsEncoded c d (is_high-lt c e) (is_low-lt d f))
            (encoded-IsEncodedIfAny s h.1.1))
    | inr f ↦ rw (e, f) tt
  ]
  | inr e ↦ elim (Bool-cases (is_low c)) [
    | inl f ↦ rw (e, f) tt
    | inr f ↦
        rw (e, f)
          (prepend-IsEncodedIfAny (encode_unit c) (encode_uri_component (d ∷ s))
            (encode_unit-IsEncoded c h.0) (encoded-IsEncodedIfAny (d ∷ s) h.1))
  ]
]

-- An encoded text consists of characters that stay as they are and of percent signs.
pub encode_uri_component-IsEncoded :
    (s t : Text) → IsUnits s → encode_uri_component s ≡ some t → IsEncoded t
encode_uri_component-IsEncoded s t h e = subst IsEncodedIfAny e (encoded-IsEncodedIfAny s h)

-- So a character that is none of them does not occur in it.
pub encoded-Lacks : (c : ℕ) (t : Text) → is_encoded c ≡ false → IsEncoded t → Lacks c t
encoded-Lacks c [] h e = tt
encoded-Lacks c (d ∷ t) h e = elim (Bool-cases (is_encoded d)) [
  | inl k ↦
      (λ p. false≢true (sym h ∙ ap is_encoded (sym p) ∙ k), encoded-Lacks c t h (ground (arith, e)))
  | inr k ↦ absurd (false≢true (sym k ∙ ground (arith, e)))
]
