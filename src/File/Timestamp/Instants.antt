-- ===== src/File/Timestamp/Instants.antt =====
-- `FileTimestamp` of `src/file.rs`: its text as nanoseconds since 1970, and as a `SystemTime`.
--
-- What `serde_json::Error::custom` makes of the text, which it quotes up to 64 characters, and of
-- the problem is an argument.
use Prim.Native.String.{String}
use rociadb_core_sdk_rust.Prelude.{
  ℕ, zero, suc, ◌+◌, ◌-◌, ◌*◌, ◌≤◌, ◌<◌, ◌≡◌, refl, sym, ap, ◌∙◌, inl, inr, Option, none, some,
  List, [], ◌∷◌, arith, ◌==◌, if◌then◌else◌, Bool-cases, Option-cases, take, drop, Result, map_err,
  Result-cases, ok, err,
}
use rociadb_core_sdk_rust.Prelude.Int.{eq_of_parts, ℤ, pos, negsuc, pos_part, neg_part, ◌+ℤ◌, ◌*ℤ◌}
use rociadb_core_sdk_rust.Duration.{Duration}
use rociadb_core_sdk_rust.Error.{Error, Source, decode}
use rociadb_core_sdk_rust.File.Timestamp.{
  is_ascii_digit, digit_count, nanos_from, parse_fraction, instant, parse_rfc3339,
}

abbrev pub file_timestamp_context : String
file_timestamp_context = "file timestamp"

-- The text as the server sent it, as bytes.
pub record FileTimestamp : Type 0 where
  pub raw : List ℕ

abbrev pub new_timestamp : List ℕ → FileTimestamp
new_timestamp raw = record { raw = raw }

abbrev pub as_str : FileTimestamp → List ℕ
as_str timestamp = timestamp.raw

-- `std::time::SystemTime`, whose range is the platform's: the epoch with a duration added or taken
-- away, unless that is out of range.
pub record Platform : Type 1 where
  pub SystemTime : Type 0
  pub checked_add : Duration → Option SystemTime
  pub checked_sub : Duration → Option SystemTime

-- `Duration::new`.
abbrev pub duration_of : ℕ → ℕ → Duration
duration_of seconds nanos = seconds * 1_000_000_000 + nanos

module _ (platform : Platform) where
  -- `negsuc n` is -(n + 1) seconds, of the magnitude n + 1.
  abbrev pub unix_instant_to_system_time : ℤ → ℕ → Option platform.SystemTime
  unix_instant_to_system_time (pos seconds) nanos = platform.checked_add (duration_of seconds nanos)
  unix_instant_to_system_time (negsuc n) nanos =
      platform.checked_sub
        (if nanos == 0 then duration_of (n + 1) 0 else duration_of n (1_000_000_000 - nanos))

  -- A `SystemTime` is the epoch plus what was added, or minus what was taken away, exactly. `since`
  -- is the time since the epoch in nanoseconds.
  pub record IsExact (since : platform.SystemTime → ℤ) : Type 0 where
    pub added :
        (d : Duration) (t : platform.SystemTime) → platform.checked_add d ≡ some t → since t ≡ pos d
    pub taken :
        (d : Duration) (t : platform.SystemTime)
        → platform.checked_sub d ≡ some t
        → (pos_part (since t) ≡ 0) × (neg_part (since t) ≡ d)

module _ (custom : List ℕ → String → Source) where
  abbrev pub decode_error : FileTimestamp → String → Error
  decode_error timestamp problem = decode file_timestamp_context (custom timestamp.raw problem)

  unfoldable pub unix_instant : FileTimestamp → Result Error (ℤ × ℕ)
  unix_instant timestamp = map_err (decode_error timestamp) (parse_rfc3339 timestamp.raw)

  unfoldable pub unix_nanos : FileTimestamp → Result Error ℤ
  unix_nanos timestamp = elim (unix_instant timestamp) [
    | err e ↦ err e
    | ok (seconds, nanos) ↦ ok (seconds *ℤ 1_000_000_000 +ℤ pos nanos)
  ]

  unfoldable pub system_time :
      (platform : Platform) → FileTimestamp → Result Error platform.SystemTime
  system_time platform timestamp = elim (unix_instant timestamp) [
    | err e ↦ err e
    | ok (seconds, nanos) ↦ elim (unix_instant_to_system_time platform seconds nanos) [
      | none ↦
          err (
            decode_error timestamp "the instant is outside the range SystemTime can represent here")
      | some t ↦ ok t
    ]
  ]

-- The digits of a fraction.
abbrev AreDigits : List ℕ → Type 0
AreDigits [] = Unit
AreDigits (b ∷ bytes) = (b ≤ 57) × AreDigits bytes

digit_count-AreDigits : (bytes : List ℕ) → AreDigits (take (digit_count bytes) bytes)
digit_count-AreDigits [] = tt
digit_count-AreDigits (b ∷ bytes) = elim (Bool-cases (is_ascii_digit b)) [
  | inr other ↦ rw other tt
  | inl digit ↦ rw digit (ground arith, digit_count-AreDigits bytes)
]

-- What a number is below, with so many more digits.
abbrev ceiling : ℕ → ℕ → ℕ
ceiling zero n = n + 1
ceiling (suc left) n = ceiling left (n * 10 + 9)

ceiling_mono : (left a b : ℕ) → a ≤ b → ceiling left a ≤ ceiling left b
ceiling_mono zero a b le = omega arith
ceiling_mono (suc left) a b le = ceiling_mono left (a * 10 + 9) (b * 10 + 9) (omega arith)

nanos_from-lt :
    (left nanos : ℕ) (fraction : List ℕ)
    → AreDigits fraction
    → nanos_from left nanos fraction < ceiling left nanos
nanos_from-lt zero nanos fraction all = omega arith
nanos_from-lt (suc left) nanos [] all = omega (
  arith,
  nanos_from-lt left (nanos * 10) [] tt,
  ceiling_mono left (nanos * 10) (nanos * 10 + 9) (omega arith),
)
nanos_from-lt (suc left) nanos (b ∷ fraction) (digit, all) = omega (
  arith,
  nanos_from-lt left (nanos * 10 + (b - 48)) fraction all,
  ceiling_mono left (nanos * 10 + (b - 48)) (nanos * 10 + 9) (omega arith),
)

parse_fraction-lt :
    (bytes : List ℕ) (nanos : ℕ) (rest : List ℕ)
    → parse_fraction bytes ≡ ok (nanos, rest)
    → nanos < 1_000_000_000
unfolding parse_fraction
parse_fraction-lt [] nanos rest parsed = ground arith
parse_fraction-lt (b ∷ tail) nanos rest parsed =
    let small : nanos_from 9 0 (take (digit_count tail) tail) < 1_000_000_000 =
      nanos_from-lt 9 0 (take (digit_count tail) tail) (digit_count-AreDigits tail) in
    ground arith

parse_rfc3339-lt :
    (bytes : List ℕ) (seconds : ℤ) (nanos : ℕ)
    → parse_rfc3339 bytes ≡ ok (seconds, nanos)
    → nanos < 1_000_000_000
unfolding parse_rfc3339 instant
parse_rfc3339-lt bytes seconds nanos parsed = elim (Result-cases (parse_fraction (drop 19 bytes))) [
  | inr (e, bad) ↦ absurd (ground arith)
  | inl ((n, rest), good) ↦
      let small : n < 1_000_000_000 = parse_fraction-lt (drop 19 bytes) n rest good in ground arith
]

module _ (platform : Platform) (since : platform.SystemTime → ℤ)
    (exact : IsExact platform since) where
  instant_since :
      (seconds : ℤ) (nanos : ℕ) (t : platform.SystemTime)
      → nanos < 1_000_000_000
      → unix_instant_to_system_time platform seconds nanos ≡ some t
      → since t ≡ seconds *ℤ 1_000_000_000 +ℤ pos nanos
  unfolding ◌*ℤ◌ ◌+ℤ◌
  instant_since (pos s) nanos t small made =
      exact.added (duration_of s nanos) t made ∙ eq_of_parts _ _ (ground arith)
  instant_since (negsuc n) nanos t small made = elim (Bool-cases (nanos == 0)) [
    | inl whole ↦
        let (up, down) =
          exact.taken (duration_of (n + 1) 0) t
            (sym (rw (whole, unix_instant_to_system_time) refl) ∙ made) in
        eq_of_parts (since t) _ (ground arith)
    | inr part ↦
        let (up, down) =
          exact.taken (duration_of n (1_000_000_000 - nanos)) t
            (sym (rw (part, unix_instant_to_system_time) refl) ∙ made) in
        eq_of_parts (since t) _ (ground arith)
  ]

  -- A timestamp that is read as a SystemTime is read by unix_nanos as the same instant, to the
  -- nanosecond, before 1970 as after it. The platform's SystemTime must be exact.
  pub system_time-unix_nanos :
      (custom : List ℕ → String → Source) (timestamp : FileTimestamp) (t : platform.SystemTime)
      → system_time custom platform timestamp ≡ ok t
      → unix_nanos custom timestamp ≡ ok (since t)
  unfolding system_time unix_nanos unix_instant
  system_time-unix_nanos custom timestamp t read =
      elim (Result-cases (parse_rfc3339 timestamp.raw)) [
        | inr (e, bad) ↦ absurd (ground arith)
        | inl ((seconds, nanos), good) ↦
            let small : nanos < 1_000_000_000 = parse_rfc3339-lt timestamp.raw seconds nanos good in
            elim (Option-cases (unix_instant_to_system_time platform seconds nanos)) [
              | inl outside ↦ absurd (ground arith)
              | inr (u, made) ↦
                  let same : u ≡ t = ground arith in
                  rw (good, unix_nanos)
                    (ap ok (sym (instant_since seconds nanos u small made) ∙ ap since same))
            ]
      ]
