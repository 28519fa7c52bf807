-- ===== src/Formatters/Ages.antt =====
-- What the text of an age says.
use integr8s_code.Base.{
  ◌⊎◌, inl, inr, ℕ, ◌/◌, ◌≤◌, ◌<◌, ◌≡◌, arith, Option, some, ◌∷◌, ◌++◌, ltb, if◌then◌else◌, Text,
  codes, decimal_text, ℤ, pos,
}
use native.Mathlib.Decide.{dec_lt}
use integr8s_code.Formatters.{Platform, valid_date, minus, relative, format_relative_time}

-- date-fns counts whole seconds, minutes and hours between two times.
pub record CountsWhole (p : Platform) : Type 0 where
  pub seconds : (a b : ℤ) (n : ℕ) → minus a b ≡ pos n → p.difference_in_seconds a b ≡ n / 1000
  pub minutes : (a b : ℤ) (n : ℕ) → minus a b ≡ pos n → p.difference_in_minutes a b ≡ n / 60000
  pub hours : (a b : ℤ) (n : ℕ) → minus a b ≡ pos n → p.difference_in_hours a b ≡ n / 3600000

abbrev pub ago : ℕ → ℕ → Text
ago n unit = decimal_text n ++ unit ∷ codes " ago"

-- A text that is right for an age in milliseconds.
abbrev pub Reads : Platform → (now date : ℤ) → (age : ℕ) → (text : Text) → Type 0
Reads p now date age text =
    ((age < 60000) × (text ≡ codes "just now"))
    ⊎ (((60000 ≤ age) × (age < 3600000) × (text ≡ ago (age / 60000) b'm'))
        ⊎ (((3600000 ≤ age) × (age < 86400000) × (text ≡ ago (age / 3600000) b'h'))
            ⊎ ((86400000 ≤ age)
                × (text ≡ (
                    if ltb (p.difference_in_days now date) 7
                    then ago (p.difference_in_days now date) b'd'
                    else p.date_only date)))))

module _ (p : Platform) (w : CountsWhole p) (now date : ℤ) where
  relative_lem :
      (age : ℕ)
      → minus now date ≡ pos age
      → (age < 60000 → relative p now date ≡ codes "just now")
        × (60000 ≤ age → age < 3600000 → relative p now date ≡ ago (age / 60000) b'm')
        × (3600000 ≤ age → age < 86400000 → relative p now date ≡ ago (age / 3600000) b'h')
        × (86400000 ≤ age
            → relative p now date ≡ (
                if ltb (p.difference_in_days now date) 7
                then ago (p.difference_in_days now date) b'd'
                else p.date_only date))
  unfolding relative
  relative_lem age e =
      ground (arith, w.seconds now date age e, w.minutes now date age e, w.hours now date age e)

  relative-Reads : (age : ℕ) → minus now date ≡ pos age → Reads p now date age (relative p now date)
  relative-Reads age e =
      let reads = relative_lem age e in
      elim (dec_lt age 60000) [
        | yes seconds ↦ inl (seconds, reads.0 seconds)
        | no a ↦ inr (elim (dec_lt age 3600000) [
          | yes minutes ↦ inl (omega arith, minutes, reads.1 (omega arith) minutes)
          | no b ↦ inr (elim (dec_lt age 86400000) [
            | yes hours ↦ inl (omega arith, hours, reads.2 (omega arith) hours)
            | no c ↦ inr (omega arith, reads.3 (omega arith))
          ])
        ])
      ]

  -- A timestamp that is not in the future reads by its age: below a minute "just now", below an hour
  -- in whole minutes, below a day in whole hours, and from there in days while those of the local
  -- calendar are fewer than 7, then as its date.
  pub format_relative_time-Reads :
      (s : Option Text) (age : ℕ)
      → valid_date p s ≡ some date
      → minus now date ≡ pos age
      → Reads p now date age (format_relative_time p now s)
  unfolding format_relative_time
  format_relative_time-Reads s age v e = rw v (relative-Reads age e)
