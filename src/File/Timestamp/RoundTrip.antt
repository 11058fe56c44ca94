-- ===== src/File/Timestamp/RoundTrip.antt =====
-- `parse_rfc3339` of `src/file.rs` reads back what a printer of RFC 3339 writes.
use rociadb_core_sdk_rust.Prelude.{
  ℕ, ◌+◌, ◌-◌, ◌*◌, ◌/◌, ◌%◌, ◌≤◌, ◌<◌, ◌≡◌, refl, ap, ◌∙◌, true, false, some, List, [], ◌∷◌, ◌++◌,
  arith, ltb, ok,
}
use rociadb_core_sdk_rust.Prelude.Int.{ℤ, pos, ◌+ℤ◌, ◌-ℤ◌, ◌*ℤ◌}
use rociadb_core_sdk_rust.File.Timestamp.{
  digits, digits_from, is_ascii_digit, parse_fraction, parse_offset, days_in_month, days_from_civil,
  instant, parse_rfc3339,
}

abbrev pub digit : ℕ → ℕ
digit n = 48 + n % 10

abbrev pub two : ℕ → List ℕ
two n = digit (n / 10) ∷ digit n ∷ []

abbrev pub four : ℕ → List ℕ
four n = digit (n / 1000) ∷ digit (n / 100) ∷ digit (n / 10) ∷ digit n ∷ []

digits_from-cons :
    (acc n : ℕ) (rest : List ℕ)
    → digits_from acc (digit n ∷ rest) ≡ digits_from (acc * 10 + n % 10) rest
digits_from-cons acc n rest =
    let is_digit : is_ascii_digit (digit n) ≡ true = ground arith in
    let same : acc * 10 + (digit n - 48) ≡ acc * 10 + n % 10 = omega arith in
    rw is_digit (ap (λ k. digits_from k rest) same)

digits-two : (n : ℕ) → n < 100 → digits (two n) ≡ some n
unfolding digits
digits-two n small =
    digits_from-cons 0 (n / 10) (digit n ∷ [])
    ∙ digits_from-cons (0 * 10 + (n / 10) % 10) n []
    ∙ ap some (omega arith)

digits-four : (n : ℕ) → n < 10000 → digits (four n) ≡ some n
unfolding digits
digits-four n small =
    let a : ℕ = 0 * 10 + (n / 1000) % 10 in
    let b : ℕ = a * 10 + (n / 100) % 10 in
    let c : ℕ = b * 10 + (n / 10) % 10 in
    digits_from-cons 0 (n / 1000) (digit (n / 100) ∷ digit (n / 10) ∷ digit n ∷ [])
    ∙ digits_from-cons a (n / 100) (digit (n / 10) ∷ digit n ∷ [])
    ∙ digits_from-cons b (n / 10) (digit n ∷ [])
    ∙ digits_from-cons c n []
    ∙ ap some (omega arith)

-- A calendar date, a time of day and an offset east of Greenwich.
pub record LocalTime : Type 0 where
  pub year : ℕ
  pub month : ℕ
  pub day : ℕ
  pub hour : ℕ
  pub minute : ℕ
  pub second : ℕ
  pub offset_hours : ℕ
  pub offset_minutes : ℕ

pub record IsValid (t : LocalTime) : Type 0 where
  pub year_fits : t.year < 10000
  pub month_low : 1 ≤ t.month
  pub month_high : t.month ≤ 12
  pub day_low : 1 ≤ t.day
  pub day_high : t.day ≤ days_in_month t.year t.month
  pub hour_fits : t.hour < 24
  pub minute_fits : t.minute < 60
  pub second_fits : t.second < 60
  pub offset_hours_fit : t.offset_hours < 24
  pub offset_minutes_fit : t.offset_minutes < 60

-- `YYYY-MM-DDThh:mm:ss+hh:mm`.
abbrev pub print : LocalTime → List ℕ
print t =
    four t.year
    ++ 45 ∷ two t.month
    ++ 45 ∷ two t.day
    ++ 84 ∷ two t.hour
    ++ 58 ∷ two t.minute
    ++ 58 ∷ two t.second
    ++ 43 ∷ two t.offset_hours
    ++ 58 ∷ two t.offset_minutes

abbrev pub unix_seconds : LocalTime → ℤ
unix_seconds t =
    (days_from_civil (pos t.year) t.month t.day *ℤ 86400)
    +ℤ pos (t.hour * 3600)
    +ℤ pos (t.minute * 60)
    +ℤ pos t.second
    -ℤ pos (t.offset_hours * 3600 + t.offset_minutes * 60)

days_in_month_le : (y m : ℕ) → days_in_month y m ≤ 31
unfolding days_in_month
days_in_month_le y m = ground arith

parse_offset-two :
    (h m : ℕ)
    → h < 24
    → m < 60
    → parse_offset (43 ∷ two h ++ 58 ∷ two m) ≡ ok (pos (h * 3600 + m * 60))
unfolding parse_offset
parse_offset-two h m h_fits m_fits =
    let hours : ltb 23 h ≡ false = ground arith in
    let minutes : ltb 59 m ≡ false = ground arith in
    rw (digits-two h (omega (arith, h_fits)), digits-two m (omega (arith, m_fits)), hours, minutes)
      refl

instant_ok :
    (t : LocalTime)
    → IsValid t
    → instant t.year t.month t.day t.hour t.minute t.second 0
        (pos (t.offset_hours * 3600 + t.offset_minutes * 60))
      ≡ ok (unix_seconds t, 0)
unfolding instant
instant_ok t v = ground arith

-- Every valid date and time with an offset east of Greenwich, printed the RFC 3339 way, is read
-- back as its instant: the day count of its date, its time of day, less its offset.
pub parse_rfc3339-print :
    (t : LocalTime) → IsValid t → parse_rfc3339 (print t) ≡ ok (unix_seconds t, 0)
unfolding parse_rfc3339 parse_fraction
parse_rfc3339-print t v = rw (digits-four t.year v.year_fits) (
    rw (digits-two t.month (omega (arith, v.month_high))) (
      rw (digits-two t.day (omega (arith, v.day_high, days_in_month_le t.year t.month))) (
        rw (digits-two t.hour (omega (arith, v.hour_fits))) (
          rw (digits-two t.minute (omega (arith, v.minute_fits))) (
            rw (digits-two t.second (omega (arith, v.second_fits))) (
              rw
                (parse_offset-two t.offset_hours t.offset_minutes v.offset_hours_fit
                  v.offset_minutes_fit)
                (instant_ok t v)))))))
