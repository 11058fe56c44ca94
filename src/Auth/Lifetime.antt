-- ===== src/Auth/Lifetime.antt =====
-- When the background task of `src/auth.rs` refreshes, and how soon it retries.
use native.Mathlib.Nat.{pow-le-pow_right}
use rociadb_core_sdk_rust.Prelude.{ℕ, ◌-◌, ◌*◌, ◌/◌, ◌^◌, ◌≤◌, ◌<◌, min, ◌≡◌, List, arith, max_u64}
use rociadb_core_sdk_rust.Duration.{Duration, from_secs}
use rociadb_core_sdk_rust.Auth.{
  TokenManager, refresh_interval, retry_backoff, jittered_retry_backoff,
}
use rociadb_core_sdk_rust.Retry.{full_jitter}
use rociadb_core_sdk_rust.Retry.Delays.{full_jitter-le}

-- The refresh interval is at least a second. It ends before the token does, if the token lasts two
-- seconds or more. From eight seconds on it is two thirds of the lifetime, in whole seconds, as long
-- as doubling the lifetime does not overflow.
pub refresh_interval_lem :
    (m : TokenManager)
    → (from_secs 1 ≤ refresh_interval m)
      × (2 ≤ m.lifetime.lasts → refresh_interval m < from_secs m.lifetime.lasts)
      × (8 ≤ m.lifetime.lasts
          → m.lifetime.lasts * 2 ≤ max_u64
          → refresh_interval m ≡ from_secs (m.lifetime.lasts * 2 / 3))
unfolding refresh_interval
refresh_interval_lem m = (omega arith, λ h. omega arith, λ h fits. omega arith)

-- The backoff after `n` failures in a row is 2 ^ n seconds, cut at thirty.
pub retry_backoff_lem : (n : ℕ) → retry_backoff n ≡ min (from_secs (2 ^ n)) (from_secs 30)
unfolding retry_backoff
retry_backoff_lem n = ground (arith, λ (k : 32 ≤ n). pow-le-pow_right {n = 2} (omega arith) k)

-- The jittered backoff after `n` failures in a row lies between half of 2 ^ n seconds, cut at
-- thirty, and all of it, whatever the random bytes are.
pub jittered_retry_backoff_lem :
    (n : ℕ) (uuid : List ℕ)
    → (min (from_secs (2 ^ n)) (from_secs 30) / 2 ≤ jittered_retry_backoff n uuid)
      × (jittered_retry_backoff n uuid ≤ min (from_secs (2 ^ n)) (from_secs 30))
unfolding jittered_retry_backoff
jittered_retry_backoff_lem n uuid =
    let c : Duration = retry_backoff n in
    let jitter : full_jitter (c - c / 2) uuid ≤ c - c / 2 = full_jitter-le (c - c / 2) uuid in
    (omega (arith, retry_backoff_lem n, jitter), omega (arith, retry_backoff_lem n, jitter))
