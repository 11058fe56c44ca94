-- ===== src/Retry/Delays.antt =====
-- The delays between two attempts (`delay_ceiling`, `full_jitter` of `src/retry.rs`).
use native.Mathlib.Nat.{pow-le-pow_right, mul-le-mul_left, pow-succ', mul_assoc, one-le-pow}
use rociadb_core_sdk_rust.Prelude.{
  ℕ, zero, suc, ◌+◌, ◌*◌, ◌/◌, ◌^◌, ◌≤◌, ◌<◌, min, ◌≡◌, List, [], ◌∷◌, arith, unwrap_or, max_u32,
  max_u64, length, take, drop, length-take,
}
use rociadb_core_sdk_rust.Duration.{Duration, max_duration, checked_shl_one}
use rociadb_core_sdk_rust.Retry.{
  RetryPolicy, delay_ceiling, full_jitter, jitter_numerator, from_be_bytes, jitter_bits,
}

-- The factor of the source: 2 ^ retry, saturated at `u32::MAX`.
factor_mono :
    (r s : ℕ)
    → r ≤ s
    → unwrap_or (checked_shl_one r) max_u32 ≤ unwrap_or (checked_shl_one s) max_u32
factor_mono r s h = ground (
  arith,
  pow-le-pow_right {n = 2} (omega arith) h,
  λ (k : r ≤ 31). pow-le-pow_right {n = 2} (omega arith) k,
)

-- The ceiling doubles from the base delay and stops at the maximum.
pub delay_ceiling_exact :
    (p : RetryPolicy) (retry : ℕ)
    → retry < 32
    → p.max_delay ≤ max_duration
    → delay_ceiling p retry ≡ min (p.base_delay * 2 ^ retry) p.max_delay
unfolding delay_ceiling
delay_ceiling_exact p retry small fits = ground arith

-- A later retry has a ceiling at least as high, and no ceiling passes the maximum.
pub delay_ceiling_mono :
    (p : RetryPolicy) (r s : ℕ)
    → r ≤ s
    → (delay_ceiling p r ≤ delay_ceiling p s) × (delay_ceiling p s ≤ p.max_delay)
unfolding delay_ceiling
delay_ceiling_mono p r s h =
    let f : ℕ = unwrap_or (checked_shl_one r) max_u32 in
    let g : ℕ = unwrap_or (checked_shl_one s) max_u32 in
    let grows : p.base_delay * f ≤ p.base_delay * g =
      mul-le-mul_left p.base_delay (factor_mono r s h) in
    ground (arith, grows)

-- Seven bytes make a number below 2 ^ 56.
abbrev pub AreBytes : List ℕ → Type 0
AreBytes [] = Unit
AreBytes (b ∷ bs) = (b < 256) × AreBytes bs

from_be_bytes_lt :
    (bs : List ℕ) (acc k n : ℕ)
    → AreBytes bs
    → length bs ≤ n
    → acc < k
    → from_be_bytes acc bs < k * 256 ^ n
from_be_bytes_lt [] acc k n h fits small =
    omega (arith, mul-le-mul_left k (one-le-pow n 256 (omega arith)))
from_be_bytes_lt (b ∷ bs) acc k zero h fits small = absurd (omega arith)
from_be_bytes_lt (b ∷ bs) acc k (suc n) h fits small = rw pow-succ' (
    rw (← mul_assoc)
      (from_be_bytes_lt bs (acc * 256 + b) (k * 256) n h.1 (omega arith) (omega (arith, h.0))))

AreBytes-take : (n : ℕ) (bs : List ℕ) → AreBytes bs → AreBytes (take n bs)
AreBytes-take zero bs h = tt
AreBytes-take (suc n) [] h = tt
AreBytes-take (suc n) (b ∷ bs) h = (h.0, AreBytes-take n bs h.1)

AreBytes-drop : (n : ℕ) (bs : List ℕ) → AreBytes bs → AreBytes (drop n bs)
AreBytes-drop zero bs h = h
AreBytes-drop (suc n) [] h = tt
AreBytes-drop (suc n) (b ∷ bs) h = AreBytes-drop n bs h.1

pub jitter_numerator_lt : (uuid : List ℕ) → AreBytes uuid → jitter_numerator uuid < 2 ^ jitter_bits
unfolding jitter_numerator
jitter_numerator_lt uuid h =
    let bs : List ℕ = take 7 (drop 9 uuid) in
    from_be_bytes_lt bs 0 1 7 (AreBytes-take 7 (drop 9 uuid) (AreBytes-drop 9 uuid h))
      (omega (arith, length-take 7 (drop 9 uuid))) (omega arith)

-- The jitter stays within its cap whatever the random bytes are.
pub full_jitter-le : (cap : Duration) (uuid : List ℕ) → full_jitter cap uuid ≤ cap
unfolding full_jitter
full_jitter-le cap uuid = ground arith

-- For a cap within `u64` nanoseconds the jitter is the exact fraction of the range: neither
-- saturation is ever taken, and the product fits in the `u128` that the source computes it in.
pub full_jitter_exact :
    (cap : Duration) (uuid : List ℕ)
    → AreBytes uuid
    → cap ≤ max_u64
    → (full_jitter cap uuid ≡ ((cap + 1) * jitter_numerator uuid) / 2 ^ jitter_bits)
      × ((cap + 1) * jitter_numerator uuid < 2 ^ 128)
unfolding full_jitter
full_jitter_exact cap uuid h fits =
    let n : ℕ = jitter_numerator uuid in
    let below : (cap + 1) * (n + 1) ≤ (cap + 1) * 2 ^ jitter_bits =
      mul-le-mul_left (cap + 1) (omega (arith, jitter_numerator_lt uuid h)) in
    let scaled : (cap + 1) * n / 2 ^ jitter_bits ≤ cap = omega (arith, below) in
    (ground (arith, scaled), omega (arith, below))
