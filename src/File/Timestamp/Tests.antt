-- ===== src/File/Timestamp/Tests.antt =====
-- Runs of the timestamp parser, and its theorems at concrete inputs.
use Prim.Native.String.{String}
use mathlib.Core.Path.{subst}
use rociadb_core_sdk_rust.Error.{Source}
use rociadb_core_sdk_rust.File.Timestamp.RoundTrip.{
  LocalTime, IsValid, print, unix_seconds, parse_rfc3339-print,
}
use rociadb_core_sdk_rust.File.Timestamp.Calendar.{days_from_civil_consecutive}
use rociadb_core_sdk_rust.File.Timestamp.Instants.{
  FileTimestamp, Platform, IsExact, system_time, unix_nanos, unix_instant, system_time-unix_nanos,
}
use rociadb_core_sdk_rust.Prelude.{
  ℕ, zero, suc, ◌+◌, ◌<◌, ◌≡◌, refl, sym, some, List, [], ◌∷◌, arith, ok,
}
use rociadb_core_sdk_rust.Prelude.Int.{ℤ, pos_part, neg_part, pos, negsuc, ◌+ℤ◌, ◌-ℤ◌, ◌*ℤ◌, ◌/ℤ◌}
use rociadb_core_sdk_rust.File.Timestamp.{
  instant, parse_fraction, parse_offset, digits, days_in_month, is_leap_year, parse_rfc3339,
  days_from_civil,
}

epoch : days_from_civil (pos 1970) 1 1 ≡ pos 0
unfolding days_from_civil ◌+ℤ◌ ◌-ℤ◌ ◌*ℤ◌ ◌/ℤ◌
epoch = refl

year_zero : days_from_civil (pos 0) 1 1 ≡ negsuc 719527
unfolding days_from_civil ◌+ℤ◌ ◌-ℤ◌ ◌*ℤ◌ ◌/ℤ◌
year_zero = refl

days_from_civil_consecutive_example :
    (days_from_civil (pos 2000) 2 (28 + 1) ≡ days_from_civil (pos 2000) 2 28 +ℤ pos 1)
    × (2 < 12
        → days_from_civil (pos 2000) (2 + 1) 1
          ≡ days_from_civil (pos 2000) 2 (days_in_month 2000 2) +ℤ pos 1)
    × (days_from_civil (pos (2000 + 1)) 1 1
        ≡ days_from_civil (pos 2000) 12 (days_in_month 2000 12) +ℤ pos 1)
    × (days_from_civil (pos 1970) 1 1 ≡ pos 0)
days_from_civil_consecutive_example =
    days_from_civil_consecutive 2000 2 28 (omega arith) (omega arith) (omega arith)

abbrev leap_day : LocalTime
leap_day = record {
  year = 2024;
  month = 2;
  day = 29;
  hour = 12;
  minute = 30;
  second = 5;
  offset_hours = 2;
  offset_minutes = 0;
}

leap_day-IsValid : IsValid leap_day
unfolding days_in_month is_leap_year
leap_day-IsValid = record {
  year_fits = omega arith;
  month_low = omega arith;
  month_high = omega arith;
  day_low = omega arith;
  day_high = omega arith;
  hour_fits = omega arith;
  minute_fits = omega arith;
  second_fits = omega arith;
  offset_hours_fit = omega arith;
  offset_minutes_fit = omega arith;
}

parse_rfc3339-print_example : parse_rfc3339 (print leap_day) ≡ ok (unix_seconds leap_day, 0)
parse_rfc3339-print_example = parse_rfc3339-print leap_day leap_day-IsValid

abbrev minus : ℕ → ℤ
minus zero = pos 0
minus (suc n) = negsuc n

-- A clock with no bounds.
abbrev unbounded : Platform
unbounded = record {
  SystemTime = ℤ;
  checked_add = λ d. some (pos d);
  checked_sub = λ d. some (minus d);
}

minus_parts : (d : ℕ) → (pos_part (minus d) ≡ 0) × (neg_part (minus d) ≡ d)
minus_parts zero = (refl, refl)
minus_parts (suc n) = (refl, refl)

unbounded-IsExact : IsExact unbounded (λ t. t)
unbounded-IsExact = record {
  added = λ d t made. sym (cc made);
  taken = λ d t made.
      let same : minus d ≡ t = cc made in
      subst (λ u. (pos_part u ≡ 0) × (neg_part u ≡ d)) same (minus_parts d);
}

-- 1969-12-31T23:59:59.25Z
abbrev before_1970 : FileTimestamp
before_1970 = record {
  raw =
      49 ∷ 57 ∷ 54 ∷ 57 ∷ 45 ∷ 49 ∷ 50 ∷ 45 ∷ 51 ∷ 49 ∷ 84 ∷ 50 ∷ 51 ∷ 58 ∷ 53 ∷ 57 ∷ 58 ∷ 53 ∷ 57
      ∷ 46 ∷ 50 ∷ 53 ∷ 90 ∷ [];
}

abbrev custom : List ℕ → String → Source
custom raw problem = 1

system_time-unix_nanos_example : unix_nanos custom before_1970 ≡ ok (negsuc 749_999_999)
unfolding system_time unix_instant parse_rfc3339 instant parse_fraction parse_offset digits
    days_from_civil days_in_month is_leap_year ◌+ℤ◌ ◌-ℤ◌ ◌*ℤ◌ ◌/ℤ◌
system_time-unix_nanos_example =
    system_time-unix_nanos unbounded (λ t. t) unbounded-IsExact custom before_1970
      (negsuc 749_999_999) refl
