-- ===== src/Formatters/Examples.antt =====
-- The theorems on texts and times, over a platform whose one date is a minute and a half in.
use integr8s_code.Base.{ℕ, ◌/◌, ◌≡◌, refl, true, some, codes, decimal_text, ℤ, pos, negsuc}
use integr8s_code.Formatters.{Platform, minus, field_title, title_unit, truncate, format_duration}
use integr8s_code.Formatters.Ages.{CountsWhole}

abbrev part : ℤ → ℕ
part (pos n) = n
part (negsuc n) = 0

abbrev platform : Platform
platform = record {
  parse_date = λ s. some (pos 90000);
  date_time = λ t. codes "date and time";
  date_only = λ t. codes "date";
  time_only = λ t. codes "time";
  rounds_up = λ ms. true;
  difference_in_seconds = λ a b. part (minus a b) / 1000;
  difference_in_minutes = λ a b. part (minus a b) / 60000;
  difference_in_hours = λ a b. part (minus a b) / 3600000;
  difference_in_days = λ a b. part (minus a b) / 86400000;
}

platform-CountsWhole : CountsWhole platform
platform-CountsWhole = record {
  seconds = λ a b n e. rw e;
  minutes = λ a b n e. rw e;
  hours = λ a b n e. rw e;
}

titled : field_title (codes "created_at") ≡ codes "Created At"
unfolding field_title title_unit
titled = refl

durations :
    (format_duration platform (some (pos 500)) ≡ codes "500ms")
    × (format_duration platform (some (pos 30000)) ≡ codes "30.0s")
    × (format_duration platform (some (pos 90000)) ≡ codes "1m 30s")
    × (format_duration platform (some (pos 120000)) ≡ codes "2m")
    × (format_duration platform (some (pos 3660000)) ≡ codes "1h 1m")
unfolding format_duration decimal_text
durations = (refl, refl, refl, refl, refl)

truncated : truncate (some (codes "abcdefghij")) 7 ≡ codes "abcd..."
unfolding truncate
truncated = refl
