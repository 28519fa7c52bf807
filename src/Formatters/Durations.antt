-- ===== src/Formatters/Durations.antt =====
-- What the text of a duration says.
use integr8s_code.Base.{
  ℕ, ◌+◌, ◌*◌, ◌/◌, ◌%◌, ◌≤◌, ◌<◌, ◌≡◌, ◌≢◌, ◌↔◌, inl, inr, refl, ap, ◌∙◌, sym, arith, true, false,
  false≢true, Bool-cases, Option, none, some, [], ◌∷◌, ◌++◌, ltb, if◌then◌else◌, Text, codes,
  decimal_text, ℤ, pos, negsuc, last_or, last_or-append,
}
use native.Mathlib.Decide.{dec_lt}
use native.Mathlib.Decide.{dec_lt}
use integr8s_code.Formatters.{
  between, format_duration_between, valid_date, minus, is_negative, Platform, not_available, tenths,
  format_duration,
}

tenths_near :
    (p : Platform) (ms : ℕ) → (tenths p ms * 100 ≤ ms + 50) × (ms ≤ tenths p ms * 100 + 50)
unfolding tenths
tenths_near p ms = ground arith

abbrev pub rest_text : ℕ → ℕ → Text
rest_text k sub = if ltb 0 k then b' ' ∷ (decimal_text k ++ sub ∷ []) else []

-- The text of a duration in its four forms, and the numbers that stand in it.
pub data Shows (p : Platform) (ms : ℕ) : Type 0 where
  millis :
      ms < 1000 → format_duration p (some (pos ms)) ≡ decimal_text ms ++ codes "ms" → Shows p ms
  seconds :
      (t : ℕ)
      → 1000 ≤ ms
      → ms < 60000
      → format_duration p (some (pos ms))
        ≡ (decimal_text (t / 10) ++ b'.' ∷ decimal_text (t % 10)) ++ codes "s"
      → t * 100 ≤ ms + 50
      → ms ≤ t * 100 + 50
      → Shows p ms
  minutes :
      (m s : ℕ)
      → 60000 ≤ ms
      → ms < 3600000
      → format_duration p (some (pos ms)) ≡ decimal_text m ++ b'm' ∷ rest_text s b's'
      → m < 60
      → s < 60
      → (m * 60 + s) * 1000 ≤ ms
      → ms < (m * 60 + s) * 1000 + 1000
      → Shows p ms
  hours :
      (h m : ℕ)
      → 3600000 ≤ ms
      → format_duration p (some (pos ms)) ≡ decimal_text h ++ b'h' ∷ rest_text m b'm'
      → m < 60
      → (h * 60 + m) * 60000 ≤ ms
      → ms < (h * 60 + m) * 60000 + 60000
      → Shows p ms

format_seconds :
    (p : Platform) (ms : ℕ)
    → 1000 ≤ ms
    → ms < 60000
    → format_duration p (some (pos ms))
      ≡ (decimal_text (tenths p ms / 10) ++ b'.' ∷ decimal_text (tenths p ms % 10)) ++ codes "s"
unfolding format_duration
format_seconds p ms lo hi = ground arith

format_minutes :
    (p : Platform) (ms : ℕ)
    → 60000 ≤ ms
    → ms < 3600000
    → format_duration p (some (pos ms))
      ≡ decimal_text (ms / 60000) ++ b'm' ∷ rest_text (ms % 60000 / 1000) b's'
unfolding format_duration
format_minutes p ms lo hi = ground arith

format_hours :
    (p : Platform) (ms : ℕ)
    → 3600000 ≤ ms
    → format_duration p (some (pos ms))
      ≡ decimal_text (ms / 3600000) ++ b'h' ∷ rest_text (ms % 3600000 / 60000) b'm'
unfolding format_duration
format_hours p ms lo = ground arith

format_millis :
    (p : Platform) (ms : ℕ)
    → ms < 1000
    → format_duration p (some (pos ms)) ≡ decimal_text ms ++ codes "ms"
unfolding format_duration
format_millis p ms hi = ground arith

-- The text of a duration says the duration: below a second in whole milliseconds; below a minute in
-- tenths of a second, at most half a tenth off; below an hour in minutes and seconds, and from there
-- in hours and minutes, each below 60, rounded down, with a zero second part left out.
pub format_duration-Shows : (p : Platform) (ms : ℕ) → Shows p ms
format_duration-Shows p ms = elim (dec_lt ms 1000) [
  | yes a ↦ millis a (format_millis p ms a)
  | no a ↦ elim (dec_lt ms 60000) [
    | yes b ↦
        seconds (tenths p ms) (omega arith) b (format_seconds p ms (omega arith) b)
          (tenths_near p ms).0 (tenths_near p ms).1
    | no b ↦ elim (dec_lt ms 3600000) [
      | yes c ↦
          minutes (ms / 60000) (ms % 60000 / 1000) (omega arith) c
            (format_minutes p ms (omega arith) c) (omega arith) (omega arith) (omega arith)
            (omega arith)
      | no c ↦
          hours (ms / 3600000) (ms % 3600000 / 60000) (omega arith)
            (format_hours p ms (omega arith)) (omega arith) (omega arith) (omega arith)
    ]
  ]
]

last-rest :
    (d k sub : ℕ) (front : Text) (unit : ℕ)
    → last_or d (front ++ unit ∷ rest_text k sub) ≡ (if ltb 0 k then sub else unit)
unfolding last_or
last-rest d k sub front unit =
    last_or-append d unit front (rest_text k sub) ∙ elim (Bool-cases (ltb 0 k)) [
      | inl e ↦ rw e (last_or-append b' ' sub (decimal_text k) [])
      | inr e ↦ rw e
    ]

-- No text of a duration ends as "N/A" does.
ne_not_available : (t : Text) (c : ℕ) → last_or 0 t ≡ c → c ≢ b'A' → t ≢ not_available
unfolding last_or
ne_not_available t c l h e = h (sym l ∙ ap (last_or 0) e)

format_span-ne : (p : Platform) (ms : ℕ) → format_duration p (some (pos ms)) ≢ not_available
format_span-ne p ms = elim (dec_lt ms 1000) [
  | yes a ↦ rw (format_millis p ms a) (
      ne_not_available _ b's'
        (last_or-append 0 b'm' (decimal_text ms) (b's' ∷ []) ∙ unfold last_or in refl)
        (omega arith))
  | no a ↦ elim (dec_lt ms 60000) [
    | yes b ↦ rw (format_seconds p ms (omega arith) b) (
        ne_not_available _ b's'
          (last_or-append 0 b's'
              (decimal_text (tenths p ms / 10) ++ b'.' ∷ decimal_text (tenths p ms % 10)) []
            ∙ unfold last_or in refl)
          (omega arith))
    | no b ↦ elim (dec_lt ms 3600000) [
      | yes c ↦ rw (format_minutes p ms (omega arith) c) (
          ne_not_available _ _
            (last-rest 0 (ms % 60000 / 1000) b's' (decimal_text (ms / 60000)) b'm') (ground arith))
      | no c ↦ rw (format_hours p ms (omega arith)) (
          ne_not_available _ _
            (last-rest 0 (ms % 3600000 / 60000) b'm' (decimal_text (ms / 3600000)) b'h')
            (ground arith))
    ]
  ]
]

-- Two times with no span between them to show: one is missing or no time, or the end comes first.
abbrev pub NoSpan : Option ℤ → Option ℤ → Type 0
NoSpan none end = Unit
NoSpan (some start) none = Unit
NoSpan (some start) (some end) = is_negative (minus end start) ≡ true

between-ne :
    (p : Platform) (z : ℤ) → is_negative z ≡ false → format_duration p (some z) ≢ not_available
between-ne p (pos ms) h = format_span-ne p ms
between-ne p (negsuc n) h = cc

between_iff : (p : Platform) (x y : Option ℤ) → (between p x y ≡ not_available) ↔ NoSpan x y
unfolding between
between_iff p none y = (λ _. tt, λ _. refl)
between_iff p (some a) none = (λ _. tt, λ _. refl)
between_iff p (some a) (some b) = elim (Bool-cases (is_negative (minus b a))) [
  | inl e ↦ rw e (λ _. refl, λ _. refl)
  | inr e ↦ rw e (λ h. absurd (between-ne p (minus b a) e h), λ h. absurd (false≢true h))
]

-- The time between two timestamps reads "N/A" exactly if one of them is missing, empty or no date, or
-- if the end lies before the start.
pub format_duration_between_iff :
    (p : Platform) (start end : Option Text)
    → (format_duration_between p start end ≡ not_available)
      ↔ NoSpan (valid_date p start) (valid_date p end)
unfolding format_duration_between
format_duration_between_iff p start end = between_iff p (valid_date p start) (valid_date p end)

tenths_600 : (p : Platform) (ms : ℕ) → 59950 < ms → ms < 60000 → tenths p ms ≡ 600
unfolding tenths
tenths_600 p ms lo hi = ground arith

-- In the last half tenth of a minute the text reads "60.0s", and not "1m".
pub format_duration_60 :
    (p : Platform) (ms : ℕ)
    → 59950 < ms
    → ms < 60000
    → format_duration p (some (pos ms)) ≡ codes "60.0s"
format_duration_60 p ms lo hi =
    format_seconds p ms (omega arith) hi ∙ rw (tenths_600 p ms lo hi) (unfold decimal_text in refl)
