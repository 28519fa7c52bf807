-- ===== src/Formatters/Truncation.antt =====
-- Truncated texts.
use integr8s_code.Base.{
  ℕ, ◌+◌, ◌-◌, ◌≤◌, ◌<◌, ◌≡◌, ◌⊎◌, ◌↔◌, inl, inr, ap, ◌∙◌, arith, some, ◌++◌, Text, codes, length,
  take, length-append, length-take, min,
}
use native.Mathlib.Decide.{dec_lt}
use integr8s_code.Formatters.{truncate, slice_end}

slice_end-le : (s : Text) (n : ℕ) → 3 ≤ n → slice_end s n ≡ n - 3
slice_end-le s n h = ground arith

slice_end-lt : (s : Text) (n : ℕ) → n < 3 → slice_end s n ≡ length s - (3 - n)
slice_end-lt s n h = ground arith

truncate-short : (s : Text) (n : ℕ) → length s ≤ n → truncate (some s) n ≡ s
unfolding truncate
truncate-short s n h = ground arith

truncate-long :
    (s : Text) (n : ℕ) → n < length s → truncate (some s) n ≡ take (slice_end s n) s ++ codes "..."
unfolding truncate
truncate-long s n h = ground arith

length-truncate_long :
    (s : Text) (n : ℕ)
    → n < length s
    → length (truncate (some s) n) ≡ min (slice_end s n) (length s) + 3
length-truncate_long s n h =
    ap length (truncate-long s n h)
    ∙ length-append (take (slice_end s n) s) (codes "...")
    ∙ ap (λ k. k + 3) (length-take (slice_end s n) s)

length-truncate_le :
    (s : Text) (n : ℕ) → (length (truncate (some s) n) ≤ n) ↔ ((3 ≤ n) ⊎ (length s ≤ n))
length-truncate_le s n = elim (dec_lt n (length s)) [
  | no fits ↦ rw (truncate-short s n (omega arith)) (λ h. inr h, λ h. omega arith)
  | yes long ↦ rw (length-truncate_long s n long) (elim (dec_lt n 3) [
    | no wide ↦ rw (slice_end-le s n (omega arith)) (λ h. inl (omega arith), λ h. omega arith)
    | yes tight ↦ rw (slice_end-lt s n tight) (λ h. absurd (omega arith), λ h. absurd (omega arith))
  ])
]

-- What `t` is when it stands for `s` within `n` units: `s`, a beginning of it and "...", or a text
-- that is too long.
abbrev pub IsTruncated : (s : Text) (n : ℕ) (t : Text) → Type 0
IsTruncated s n t =
    ((length s ≤ n) × (t ≡ s))
    ⊎ (((n < length s) × (3 ≤ n) × (t ≡ take (n - 3) s ++ codes "...") × (length t ≤ n))
        ⊎ ((n < length s) × (n < 3) × (n < length t)))

-- A text that fits stays as it is; a longer one becomes a beginning of it and "...", which fits if the
-- maximum is at least 3: with a smaller maximum the result is longer than that.
pub truncate-IsTruncated : (s : Text) (n : ℕ) → IsTruncated s n (truncate (some s) n)
truncate-IsTruncated s n = elim (dec_lt n (length s)) [
  | no fits ↦ inl (omega arith, truncate-short s n (omega arith))
  | yes long ↦ inr (elim (dec_lt n 3) [
    | no wide ↦ inl (
      long,
      omega arith,
      truncate-long s n long ∙ ap (λ k. take k s ++ codes "...") (slice_end-le s n (omega arith)),
      (length-truncate_le s n).1 (inl (omega arith)),
    )
    | yes tight ↦ inr (long, tight, rw (length-truncate_long s n long) (omega arith))
  ])
]
