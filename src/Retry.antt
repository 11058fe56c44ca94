-- ===== src/Retry.antt =====
-- `src/retry.rs`: the retry policy, its jittered delays and the retry loop.
--
-- The sixteen bytes of a fresh `Uuid::new_v4` are an argument, since the random source is not part
-- of the program; so are the caller's operation and the runtime's sleep, as actions on a world.
pub mod Delays
pub mod Loop
pub mod Writes
mod Tests
use rociadb_core_sdk_rust.Prelude.{
  ℕ, zero, suc, ◌+◌, ◌*◌, ◌/◌, ◌^◌, min, max, Bool, false, not, ◌&&◌, ◌||◌, Option, none, some,
  List, [], ◌∷◌, leb, ◌==◌, if◌then◌else◌, unwrap_or, max_u32, max_u64, take, drop, Result, Action,
  ok, err,
}
use rociadb_core_sdk_rust.Duration.{
  Duration, from_secs, from_millis, checked_mul, checked_shl_one, max_duration,
}
use rociadb_core_sdk_rust.Error.{Error, unavailable, same_code, code, is_aborted}

abbrev pub default_max_attempts : ℕ
default_max_attempts = 3

abbrev pub default_base_delay : Duration
default_base_delay = from_millis 100

abbrev pub default_max_delay : Duration
default_max_delay = from_secs 2

abbrev pub jitter_bits : ℕ
jitter_bits = 56

pub record RetryPolicy : Type 0 where
  pub max_attempts : ℕ
  pub base_delay : Duration
  pub max_delay : Duration
  pub retry_unavailable : Bool

abbrev pub new : RetryPolicy
new = record {
  max_attempts = default_max_attempts;
  base_delay = default_base_delay;
  max_delay = default_max_delay;
  retry_unavailable = false;
}

abbrev pub with_max_attempts : ℕ → RetryPolicy → RetryPolicy
with_max_attempts n p = record p { max_attempts = n }

abbrev pub with_base_delay : Duration → RetryPolicy → RetryPolicy
with_base_delay d p = record p { base_delay = d }

abbrev pub with_max_delay : Duration → RetryPolicy → RetryPolicy
with_max_delay d p = record p { max_delay = d }

abbrev pub with_retry_unavailable : Bool → RetryPolicy → RetryPolicy
with_retry_unavailable b p = record p { retry_unavailable = b }

unfoldable pub attempts : RetryPolicy → ℕ
attempts p = max p.max_attempts 1

unfoldable pub delay_ceiling : RetryPolicy → ℕ → Duration
delay_ceiling p retry =
    let factor = unwrap_or (checked_shl_one retry) max_u32 in
    let scaled = unwrap_or (checked_mul p.base_delay factor) max_duration in min scaled p.max_delay

-- `u64::from_be_bytes`.
abbrev pub from_be_bytes : ℕ → List ℕ → ℕ
from_be_bytes acc [] = acc
from_be_bytes acc (b ∷ bs) = from_be_bytes (acc * 256 + b) bs

-- Bytes 9 to 15 of the UUID, as a big-endian number under a zero top byte.
unfoldable pub jitter_numerator : List ℕ → ℕ
jitter_numerator uuid = from_be_bytes 0 (zero ∷ take 7 (drop 9 uuid))

-- `u64::try_from(n).unwrap_or(u64::MAX)`.
abbrev pub saturate_u64 : ℕ → ℕ
saturate_u64 n = if leb n max_u64 then n else max_u64

unfoldable pub full_jitter : Duration → List ℕ → Duration
full_jitter cap uuid =
    let nanos = saturate_u64 cap in
    let scaled = ((nanos + 1) * jitter_numerator uuid) / 2 ^ jitter_bits in
    if cap == 0 then 0 else min (saturate_u64 scaled) nanos

unfoldable pub delay : RetryPolicy → ℕ → List ℕ → Duration
delay p retry uuid = full_jitter (delay_ceiling p retry) uuid

unfoldable pub should_retry : RetryPolicy → Error → Bool
unfolding is_aborted code
should_retry p e = is_aborted e || (p.retry_unavailable && same_code (code e) unavailable)

-- What the retry loop runs on: the caller's operation, a fresh UUID and the runtime's sleep.
pub record Effects (W T : Type 0) : Type 0 where
  pub op : Action W (Result Error T)
  pub new_v4 : Action W (List ℕ)
  pub sleep : Duration → W → W

-- `RociaDbClient::retry`.
module _ {W T : Type 0} (env : Effects W T) (policy : RetryPolicy) where
  open env use {op, new_v4, sleep}

  -- The loop from its `retry` on; a UUID is drawn for each delay. `none` is the fuel running out.
  unfoldable pub retry_from : ℕ → ℕ → W → Option (Result Error T × W)
  retry_from zero retry w = none
  retry_from (suc fuel) retry w =
      let (answer, w') = op w in
      elim answer [
        | ok value ↦ some (ok value, w')
        | err e ↦
            let (uuid, w'') = new_v4 w' in
            let later = retry_from fuel (retry + 1) (sleep (delay policy retry uuid) w'') in
            if leb (attempts policy) (retry + 1) || not (should_retry policy e)
            then some (err e, w')
            else later
      ]

  -- The loop makes at most `attempts` rounds.
  unfoldable pub retry : W → Option (Result Error T × W)
  retry w = retry_from (attempts policy) 0 w
