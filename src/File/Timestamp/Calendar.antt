-- ===== src/File/Timestamp/Calendar.antt =====
-- The day count of `src/file.rs` (`days_from_civil`) against the calendar (`days_in_month`).
use rociadb_core_sdk_rust.Prelude.{
  ℕ, ◌+◌, ◌-◌, ◌*◌, ◌/◌, ◌≤◌, ◌<◌, ◌≡◌, sym, ap, ◌∙◌, ◌≢◌, inl, inr, arith, ltb, leb, ◌==◌,
  if◌then◌else◌, Bool-cases,
}
use rociadb_core_sdk_rust.Prelude.Int.{pos, sub_ℕ, leb_ℤ, ◌+ℤ◌, ◌-ℤ◌, ◌*ℤ◌, ◌/ℤ◌}
use rociadb_core_sdk_rust.File.Timestamp.{is_leap_year, days_in_month, days_from_civil}

pos-add : (a b : ℕ) → pos a +ℤ pos b ≡ pos (a + b)
unfolding ◌+ℤ◌
pos-add a b = ground arith

pos-sub : (a b : ℕ) → b ≤ a → pos a -ℤ pos b ≡ pos (a - b)
unfolding ◌-ℤ◌
pos-sub a b h = ground arith

pos-mul : (a k : ℕ) → pos a *ℤ k ≡ pos (a * k)
unfolding ◌*ℤ◌
pos-mul a k = ground arith

pos-div : (a k : ℕ) → pos a /ℤ k ≡ pos (a / k)
unfolding ◌/ℤ◌
pos-div a k = ground arith

sub_ℕ-pos : (a b : ℕ) → pos a -ℤ pos b ≡ sub_ℕ a b
unfolding ◌-ℤ◌
sub_ℕ-pos a b = ground arith

sub_ℕ-suc : (a b : ℕ) → sub_ℕ a b +ℤ pos 1 ≡ sub_ℕ (a + 1) b
unfolding ◌+ℤ◌
sub_ℕ-suc a b = ground arith

-- The year that begins in March.
abbrev march_year : ℕ → ℕ → ℕ
march_year y m = if leb m 2 then y - 1 else y

abbrev day_of_year : ℕ → ℕ → ℕ
day_of_year m d = (153 * (if ltb 2 m then m - 3 else m + 9) + 2) / 5 + d - 1

-- The days before a day of a year that begins in March, from the first of March of the year 0.
abbrev day_count : ℕ → ℕ → ℕ
day_count year day =
    (year / 400) * 146097
    + ((year - (year / 400) * 400) * 365
        + (year - (year / 400) * 400) / 4
        - (year - (year / 400) * 400) / 100
        + day)

shifted : (y m : ℕ) → 1 ≤ y → (if leb m 2 then pos y -ℤ pos 1 else pos y) ≡ pos (march_year y m)
unfolding ◌-ℤ◌
shifted y m h = ground arith

days_from_civil-eq :
    (y m d : ℕ)
    → 1 ≤ y
    → days_from_civil (pos y) m d ≡ sub_ℕ (day_count (march_year y m) (day_of_year m d)) 719468
unfolding days_from_civil
days_from_civil-eq y m d h =
    let year : ℕ = march_year y m in
    let era : (if leb_ℤ (pos 0) (pos year) then pos year else pos year -ℤ pos 399) ≡ pos year =
      ground arith in
    let left : pos year -ℤ pos (year / 400 * 400) ≡ pos (year - year / 400 * 400) =
      pos-sub year (year / 400 * 400) (omega arith) in
    let yoe : ℕ = year - year / 400 * 400 in
    let doy : ℕ = day_of_year m d in
    let fewer : pos (yoe * 365 + yoe / 4) -ℤ pos (yoe / 100)
        ≡ pos (yoe * 365 + yoe / 4 - yoe / 100) =
      pos-sub (yoe * 365 + yoe / 4) (yoe / 100) (omega arith) in
    rw (shifted y m h) (
      rw era (
        rw (pos-div year 400) (
          rw (pos-mul (year / 400) 400) (
            rw left (
              rw (pos-mul yoe 365, pos-div yoe 4, pos-div yoe 100, pos-add (yoe * 365) (yoe / 4))
                (rw fewer (
                  rw (pos-add (yoe * 365 + yoe / 4 - yoe / 100) doy, pos-mul (year / 400) 146097)
                    (rw (pos-add (year / 400 * 146097) (yoe * 365 + yoe / 4 - yoe / 100 + doy))
                      (sub_ℕ-pos (day_count year doy) 719468)))))))))

-- A step of the count.
one_more :
    (y m d y' m' d' : ℕ)
    → 1 ≤ y
    → 1 ≤ y'
    → day_count (march_year y' m') (day_of_year m' d')
      ≡ day_count (march_year y m) (day_of_year m d) + 1
    → days_from_civil (pos y') m' d' ≡ days_from_civil (pos y) m d +ℤ pos 1
one_more y m d y' m' d' h h' next =
    days_from_civil-eq y' m' d' h'
    ∙ ap (λ n. sub_ℕ n 719468) next
    ∙ sym (
        rw (days_from_civil-eq y m d h)
          (sub_ℕ-suc (day_count (march_year y m) (day_of_year m d)) 719468))

next_day_count :
    (y m d : ℕ)
    → 1 ≤ d
    → day_count (march_year y m) (day_of_year m (d + 1))
      ≡ day_count (march_year y m) (day_of_year m d) + 1
next_day_count y m d h = omega arith

february_count :
    (y : ℕ)
    → 1 ≤ y
    → day_count y (day_of_year 3 1)
      ≡ day_count (y - 1) (day_of_year 2 (if is_leap_year y then 29 else 28)) + 1
unfolding is_leap_year
february_count y h = ground arith

-- The first of the next month lies as many days on in the March year as the month has days.
days_between :
    (y m : ℕ)
    → 1 ≤ m
    → m < 12
    → m ≢ 2
    → day_of_year (m + 1) 1 ≡ day_of_year m (days_in_month y m) + 1
unfolding days_in_month
days_between y m low high other = ground arith

next_year_count :
    (y : ℕ)
    → 1 ≤ y
    → day_count (march_year (y + 1) 1) (day_of_year 1 1)
      ≡ day_count (march_year y 12) (day_of_year 12 31) + 1
next_year_count y h = omega arith

february_days : (y : ℕ) → days_in_month y 2 ≡ (if is_leap_year y then 29 else 28)
unfolding days_in_month
february_days y = ground arith

next_month_count :
    (y m : ℕ)
    → 1 ≤ y
    → 1 ≤ m
    → m < 12
    → day_count (march_year y (m + 1)) (day_of_year (m + 1) 1)
      ≡ day_count (march_year y m) (day_of_year m (days_in_month y m)) + 1
next_month_count y m h low high = elim (Bool-cases (m == 2)) [
  | inl february ↦
      let two : m ≡ 2 = ground arith in rw two (rw (february_days y) (february_count y h))
  | inr other ↦
      let differs : m ≢ 2 = λ two. ground arith in
      let same : march_year y (m + 1) ≡ march_year y m = ground arith in
      rw (same, days_between y m low high differs) (omega arith)
]

-- From the year 1 on the day count goes up by one from each day to the next: within a month, from
-- a month's last day to the first of the next month, and from the last of December to the first of
-- January. The first of January 1970 is day 0.
pub days_from_civil_consecutive :
    (y m d : ℕ)
    → 1 ≤ y
    → 1 ≤ m
    → 1 ≤ d
    → (days_from_civil (pos y) m (d + 1) ≡ days_from_civil (pos y) m d +ℤ pos 1)
      × (m < 12
          → days_from_civil (pos y) (m + 1) 1
            ≡ days_from_civil (pos y) m (days_in_month y m) +ℤ pos 1)
      × (days_from_civil (pos (y + 1)) 1 1
          ≡ days_from_civil (pos y) 12 (days_in_month y 12) +ℤ pos 1)
      × (days_from_civil (pos 1970) 1 1 ≡ pos 0)
days_from_civil_consecutive y m d year month day = (
  one_more y m d y m (d + 1) year year (next_day_count y m d day),
  λ early.
      one_more y m (days_in_month y m) y (m + 1) 1 year year
        (next_month_count y m year month early),
  one_more y 12 (days_in_month y 12) (y + 1) 1 1 year (omega arith)
      (unfold days_in_month in next_year_count y year),
  days_from_civil-eq 1970 1 1 (omega arith),
)
