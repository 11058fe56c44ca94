-- ===== src/Retry/Loop.antt =====
-- How often `RociaDbClient::retry` of `src/retry.rs` calls the operation, and what it returns.
use rociadb_core_sdk_rust.Prelude.{
  ℕ, zero, suc, ◌+◌, ◌*◌, ◌≤◌, ◌<◌, ◌≡◌, inl, inr, true, not, ◌||◌, Option, some, arith, leb,
  Bool-cases, Result, Result-cases, ok, err, ◌∙◌, if◌then◌else◌,
}
use rociadb_core_sdk_rust.Duration.{Duration}
use rociadb_core_sdk_rust.Error.{Error}
use native.Mathlib.Nat.{le_refl}
use rociadb_core_sdk_rust.Retry.Delays.{full_jitter-le, delay_ceiling_mono}
use rociadb_core_sdk_rust.Retry.{
  delay_ceiling, full_jitter, RetryPolicy, Effects, attempts, delay, should_retry, retry_from,
  retry,
}

-- `calls`, `slept` and `long` read off a world how often the operation has run, for how long the task
-- has slept in all, and how many of its sleeps were longer than `limit`.
pub record Meters {W T : Type 0} (env : Effects W T) (limit : Duration) : Type 0 where
  pub calls : W → ℕ
  pub slept : W → ℕ
  pub op_calls : (w : W) → calls (env.op w).1 ≡ calls w + 1
  pub op_slept : (w : W) → slept (env.op w).1 ≡ slept w
  pub new_v4_calls : (w : W) → calls (env.new_v4 w).1 ≡ calls w
  pub new_v4_slept : (w : W) → slept (env.new_v4 w).1 ≡ slept w
  pub sleep_calls : (d : Duration) (w : W) → calls (env.sleep d w) ≡ calls w
  pub sleep_slept : (d : Duration) (w : W) → slept (env.sleep d w) ≡ slept w + d
  pub long : W → ℕ
  pub op_long : (w : W) → long (env.op w).1 ≡ long w
  pub new_v4_long : (w : W) → long (env.new_v4 w).1 ≡ long w
  pub sleep_long :
      (d : Duration) (w : W) → long (env.sleep d w) ≡ (if leb d limit then long w else long w + 1)

module _ {W T : Type 0} (env : Effects W T) (policy : RetryPolicy)
    (m : Meters env policy.max_delay) where
  -- What a run of at most `left` attempts from `w` has done: it ended; it called the operation
  -- at least once and at most `left` times; it returned a retryable error only after `left` calls.
  record Ended (left : ℕ) (w : W) (run : Option (Result Error T × W)) : Type 0 where
    answer : Result Error T
    world : W
    returns : run ≡ some (answer, world)
    at_least_once : m.calls w + 1 ≤ m.calls world
    at_most : m.calls world ≤ m.calls w + left
    slept_at_most : m.slept world + policy.max_delay ≤ m.slept w + left * policy.max_delay
    none_long : m.long world ≡ m.long w
    exhausted :
        (e : Error)
        → answer ≡ err e
        → should_retry policy e ≡ true
        → m.calls world ≡ m.calls w + left

  -- The world after a failed attempt and the sleep that follows it.
  rested : ℕ → W → W
  rested attempt w =
      let (uuid, w') = env.new_v4 (env.op w).1 in env.sleep (delay policy attempt uuid) w'

  calls-rested : (attempt : ℕ) (w : W) → m.calls (rested attempt w) ≡ m.calls w + 1
  unfolding rested
  calls-rested attempt w =
      let (uuid, w') = env.new_v4 (env.op w).1 in
      omega (
        arith,
        m.sleep_calls (delay policy attempt uuid) w',
        m.new_v4_calls (env.op w).1,
        m.op_calls w,
      )

  slept-rested : (attempt : ℕ) (w : W) → m.slept (rested attempt w) ≤ m.slept w + policy.max_delay
  unfolding rested delay
  slept-rested attempt w =
      let (uuid, w') = env.new_v4 (env.op w).1 in
      omega (
        arith,
        m.sleep_slept (full_jitter (delay_ceiling policy attempt) uuid) w',
        m.new_v4_slept (env.op w).1,
        m.op_slept w,
        full_jitter-le (delay_ceiling policy attempt) uuid,
        delay_ceiling_mono policy attempt attempt (le_refl attempt),
      )

  long-rested : (attempt : ℕ) (w : W) → m.long (rested attempt w) ≡ m.long w
  unfolding rested delay
  long-rested attempt w =
      let (uuid, w') = env.new_v4 (env.op w).1 in
      let d : Duration = full_jitter (delay_ceiling policy attempt) uuid in
      let low : d ≤ policy.max_delay = omega (
        arith,
        full_jitter-le (delay_ceiling policy attempt) uuid,
        delay_ceiling_mono policy attempt attempt (le_refl attempt),
      ) in
      let short : leb d policy.max_delay ≡ true = ground arith in
      m.sleep_long d w' ∙ rw short (m.new_v4_long (env.op w).1 ∙ m.op_long w)

  retry_from-Ended :
      (fuel attempt : ℕ) (w : W)
      → attempt + fuel ≡ attempts policy
      → 0 < fuel
      → Ended fuel w (retry_from env policy fuel attempt w)
  unfolding retry_from rested
  retry_from-Ended zero attempt w total pos = absurd (omega arith)
  retry_from-Ended (suc fuel) attempt w total pos = elim (Result-cases (env.op w).0) [
    | inl (value, e) ↦ record {
      answer = ok value;
      world = (env.op w).1;
      returns = rw (e, retry_from);
      at_least_once = omega (arith, m.op_calls w);
      at_most = omega (arith, m.op_calls w);
      slept_at_most = omega (arith, m.op_slept w);
      none_long = m.op_long w;
      exhausted = λ x same. cc;
    }
    | inr (x, e) ↦
        elim (Bool-cases (leb (attempts policy) (attempt + 1) || not (should_retry policy x))) [
          | inl stop ↦ record {
            answer = err x;
            world = (env.op w).1;
            returns = rw (e, retry_from) (rw stop);
            at_least_once = omega (arith, m.op_calls w);
            at_most = omega (arith, m.op_calls w);
            slept_at_most = omega (arith, m.op_slept w);
            none_long = m.op_long w;
            exhausted = λ y same again. ground (arith, m.op_calls w);
          }
          | inr go ↦
              let rest : Ended fuel (rested attempt w)
                  (retry_from env policy fuel (attempt + 1) (rested attempt w)) =
                retry_from-Ended fuel (attempt + 1) (rested attempt w) (omega arith)
                  (ground arith) in
              record {
                answer = rest.answer;
                world = rest.world;
                returns = rw (e, retry_from) (rw go rest.returns);
                at_least_once = omega (arith, rest.at_least_once, calls-rested attempt w);
                at_most = omega (arith, rest.at_most, calls-rested attempt w);
                slept_at_most = omega (arith, rest.slept_at_most, slept-rested attempt w);
                none_long = rest.none_long ∙ long-rested attempt w;
                exhausted = λ y same again.
                    omega (arith, rest.exhausted y same again, calls-rested attempt w);
              }
        ]
  ]

  -- The loop ends with an answer, whatever the operation does. It calls the operation at least
  -- once and at most `max(max_attempts, 1)` times, and an error that the policy retries comes back
  -- only after all of these calls. No sleep between the calls is longer than the maximal
  -- delay, and all of them together are at most that delay times one less than that number. The meters' laws say that sleeping and drawing a UUID do not run the operation, and that
  -- the operation does not sleep.
  pub retry_calls :
      (w : W)
      → (answer : Result Error T) × (w' : W) × (retry env policy w ≡ some (answer, w'))
        × (m.calls w + 1 ≤ m.calls w')
        × (m.calls w' ≤ m.calls w + attempts policy)
        × (m.slept w' + policy.max_delay ≤ m.slept w + attempts policy * policy.max_delay)
        × (m.long w' ≡ m.long w)
        × ((e : Error)
            → answer ≡ err e
            → should_retry policy e ≡ true
            → m.calls w' ≡ m.calls w + attempts policy)
  unfolding retry
  retry_calls w =
      let r : Ended (attempts policy) w (retry_from env policy (attempts policy) 0 w) =
        retry_from-Ended (attempts policy) 0 w (omega arith) (unfold attempts in omega arith) in
      (
        r.answer, r.world, r.returns, r.at_least_once, r.at_most, r.slept_at_most, r.none_long,
        r.exhausted,
      )
