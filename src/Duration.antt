-- ===== src/Duration.antt =====
-- `std::time::Duration` as the source uses it: a number of nanoseconds that never passes
-- `Duration::MAX`, with the checked and saturating operations written out.
use rociadb_core_sdk_rust.Prelude.{
  ℕ, ◌*◌, ◌^◌, min, Option, none, some, ltb, leb, if◌then◌else◌, unwrap_or, max_u32,
}

abbrev pub Duration : Type 0
Duration = ℕ

abbrev pub nanos_per_sec : ℕ
nanos_per_sec = 1_000_000_000

abbrev pub from_secs : ℕ → Duration
from_secs s = s * nanos_per_sec

abbrev pub from_millis : ℕ → Duration
from_millis ms = ms * 1_000_000

-- `Duration::MAX`: `u64::MAX` seconds and 999_999_999 nanoseconds.
abbrev pub max_duration : Duration
max_duration = 18446744073709551615999999999

-- `Duration::checked_mul`.
abbrev pub checked_mul : Duration → ℕ → Option Duration
checked_mul d k = if leb (d * k) max_duration then some (d * k) else none

-- `1u32.checked_shl(n)`.
abbrev pub checked_shl_one : ℕ → Option ℕ
checked_shl_one n = if ltb n 32 then some (2 ^ n) else none

-- `base.checked_mul(1 << n)` with both overflows saturated, capped at `cap`: the ceiling that
-- `RetryPolicy::delay_ceiling` and `retry_backoff` share.
abbrev pub doubled : Duration → Duration → ℕ → Duration
doubled base cap n =
    let factor = unwrap_or (checked_shl_one n) max_u32 in
    min (unwrap_or (checked_mul base factor) max_duration) cap
