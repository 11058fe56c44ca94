-- ===== src/File/Timestamp.antt =====
-- `parse_rfc3339` of `src/file.rs` and its parts. A text is its bytes; a refusal is the text of the
-- reason.
pub mod RoundTrip
pub mod Calendar
pub mod Instants
mod Tests
use Prim.Native.String.{String}
use rociadb_core_sdk_rust.Prelude.{
  ℕ, zero, suc, ◌+◌, ◌-◌, ◌*◌, ◌/◌, ◌%◌, Bool, not, ◌&&◌, ◌||◌, Option, none, some, List, [], ◌∷◌,
  ltb, leb, ◌==◌, if◌then◌else◌, length, take, drop, Result, ◌>>=◌, ◌>>◌, ok, err,
}
use rociadb_core_sdk_rust.Prelude.Int.{ℤ, pos, negsuc, leb_ℤ, ◌+ℤ◌, ◌-ℤ◌, ◌*ℤ◌, ◌/ℤ◌}

abbrev pub misshapen : String
misshapen = "expected YYYY-MM-DDThh:mm:ss with a Z or +hh:mm offset"

abbrev pub no_offset : String
no_offset = "expected a Z or +hh:mm offset at the end"

abbrev pub is_ascii_digit : ℕ → Bool
is_ascii_digit b = leb 48 b && leb b 57

-- The loop of `digits`: the number is a `u32`, and no text that is read has more than four digits.
abbrev pub digits_from : ℕ → List ℕ → Option ℕ
digits_from value [] = some value
digits_from value (b ∷ bytes) =
    let rest = digits_from (value * 10 + (b - 48)) bytes in if is_ascii_digit b then rest else none

unfoldable pub digits : List ℕ → Option ℕ
digits bytes = digits_from 0 bytes

abbrev pub ok_or : Option ℕ → String → Result String ℕ
ok_or none e = err e
ok_or (some n) e = ok n

abbrev pub digit_count : List ℕ → ℕ
digit_count [] = 0
digit_count (b ∷ bytes) = let rest = digit_count bytes in if is_ascii_digit b then suc rest else 0

-- `left` more digits of the nanoseconds; a fraction that is used up counts as zeros.
abbrev pub nanos_from : ℕ → ℕ → List ℕ → ℕ
nanos_from zero nanos fraction = nanos
nanos_from (suc left) nanos [] = nanos_from left (nanos * 10) []
nanos_from (suc left) nanos (b ∷ fraction) = nanos_from left (nanos * 10 + (b - 48)) fraction

unfoldable pub parse_fraction : List ℕ → Result String (ℕ × List ℕ)
parse_fraction [] = ok (0, [])
parse_fraction (b ∷ tail) =
    let count = digit_count tail in
    if not (b == 46)
    then ok (0, b ∷ tail)
    else if count == 0
    then err "a decimal point must be followed by at least one digit"
    else ok (nanos_from 9 0 (take count tail), drop count tail)

-- `+` is 43, `-` is 45, `:` is 58, `Z` is 90 and `z` is 122.
abbrev pub offset_sign : ℕ → ℕ → Result String ℤ
offset_sign sign magnitude =
    if sign == 43
    then ok (pos magnitude)
    else if sign == 45
    then ok (pos 0 -ℤ pos magnitude)
    else err no_offset

unfoldable pub parse_offset : List ℕ → Result String ℤ
parse_offset (z ∷ []) = if z == 90 || z == 122 then ok (pos 0) else err no_offset
parse_offset (sign ∷ hour_tens ∷ hour_units ∷ colon ∷ minute_tens ∷ minute_units ∷ []) =
    if not (colon == 58)
    then err no_offset
    else offset_sign sign 0
      >> (ok_or (digits (hour_tens ∷ hour_units ∷ [])) no_offset >>= λ hours.
          ok_or (digits (minute_tens ∷ minute_units ∷ [])) no_offset >>= λ minutes.
          if ltb 23 hours
          then err "offset hour is out of range"
          else if ltb 59 minutes
          then err "offset minute is out of range"
          else offset_sign sign (hours * 3600 + minutes * 60))
parse_offset _ = err no_offset

unfoldable pub is_leap_year : ℕ → Bool
is_leap_year year = year % 4 == 0 && (not (year % 100 == 0) || year % 400 == 0)

unfoldable pub days_in_month : ℕ → ℕ → ℕ
days_in_month year month =
    if month == 1
      || month == 3
      || month == 5
      || month == 7
      || month == 8
      || month == 10
      || month == 12
    then 31
    else if month == 4 || month == 6 || month == 9 || month == 11
    then 30
    else if month == 2 && is_leap_year year
    then 29
    else if month == 2
    then 28
    else 0

-- In `i64`, where a division rounds towards zero.
unfoldable pub days_from_civil : ℤ → ℕ → ℕ → ℤ
days_from_civil civil_year month day =
    let year = if leb month 2 then civil_year -ℤ pos 1 else civil_year in
    let era = (if leb_ℤ (pos 0) year then year else year -ℤ pos 399) /ℤ 400 in
    let year_of_era = year -ℤ (era *ℤ 400) in
    let day_of_year = (153 * (if ltb 2 month then month - 3 else month + 9) + 2) / 5 + day - 1 in
    let day_of_era =
      (year_of_era *ℤ 365) +ℤ (year_of_era /ℤ 4) -ℤ (year_of_era /ℤ 100) +ℤ pos day_of_year in
    (era *ℤ 146097) +ℤ day_of_era -ℤ pos 719468

-- The byte at an index that is within the text.
abbrev pub at : List ℕ → ℕ → ℕ
at [] i = 0
at (b ∷ bytes) zero = b
at (b ∷ bytes) (suc i) = at bytes i

abbrev pub slice : List ℕ → ℕ → ℕ → List ℕ
slice bytes start end = take (end - start) (drop start bytes)

-- The range checks, and the instant.
unfoldable pub instant : ℕ → ℕ → ℕ → ℕ → ℕ → ℕ → ℕ → ℤ → Result String (ℤ × ℕ)
instant year month day hour minute second nanos offset_seconds =
    if not (leb 1 month && leb month 12)
    then err "month is out of range"
    else if ltb day 1 || ltb (days_in_month year month) day
    then err "day is out of range for that month"
    else if ltb 23 hour
    then err "hour is out of range"
    else if ltb 59 minute
    then err "minute is out of range"
    else if ltb 59 second
    then err "second is out of range (a leap second is not accepted)"
    else ok (
      (days_from_civil (pos year) month day *ℤ 86400)
          +ℤ pos (hour * 3600)
          +ℤ pos (minute * 60)
          +ℤ pos second
          -ℤ offset_seconds,
      nanos,
    )

unfoldable pub parse_rfc3339 : List ℕ → Result String (ℤ × ℕ)
parse_rfc3339 bytes =
    if ltb (length bytes) 19
    then err misshapen
    else if not (at bytes 4 == 45)
        || not (at bytes 7 == 45)
        || not (at bytes 13 == 58)
        || not (at bytes 16 == 58)
    then err misshapen
    else if not (at bytes 10 == 84 || at bytes 10 == 116 || at bytes 10 == 32)
    then err misshapen
    else ok_or (digits (slice bytes 0 4)) misshapen >>= λ year.
        ok_or (digits (slice bytes 5 7)) misshapen >>= λ month.
        ok_or (digits (slice bytes 8 10)) misshapen >>= λ day.
        ok_or (digits (slice bytes 11 13)) misshapen >>= λ hour.
        ok_or (digits (slice bytes 14 16)) misshapen >>= λ minute.
        ok_or (digits (slice bytes 17 19)) misshapen >>= λ second.
        parse_fraction (drop 19 bytes) >>= λ fraction. parse_offset fraction.1 >>= λ offset_seconds.
        instant year month day hour minute second fraction.0 offset_seconds
