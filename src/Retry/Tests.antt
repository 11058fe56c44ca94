-- ===== src/Retry/Tests.antt =====
-- Runs of the retry code, and its theorems at concrete inputs.
use rociadb_core_sdk_rust.Prelude.{
  ℕ, ◌+◌, ◌*◌, ◌≤◌, ◌≡◌, refl, true, none, some, List, [], ◌∷◌, arith, ltb, if◌then◌else◌, Result,
  ok, err, leb,
}
use rociadb_core_sdk_rust.Duration.{from_millis}
use rociadb_core_sdk_rust.Error.{sent, Error, status_error, aborted}
use rociadb_core_sdk_rust.Retry.{
  new, delay_ceiling, Effects, retry, retry_from, full_jitter, jitter_numerator, attempts,
  should_retry, delay,
}
use rociadb_core_sdk_rust.Retry.Delays.{delay_ceiling_exact}
use rociadb_core_sdk_rust.Retry.Loop.{Meters, retry_calls}

ceilings : (delay_ceiling new 3 ≡ from_millis 800) × (delay_ceiling new 6 ≡ from_millis 2000)
unfolding delay_ceiling
ceilings = (refl, refl)

delay_ceiling_exact_example : delay_ceiling new 3 ≡ from_millis 800
delay_ceiling_exact_example = delay_ceiling_exact new 3 (omega arith) (omega arith)

abbrev uuid : List ℕ
uuid = 0 ∷ 0 ∷ 0 ∷ 0 ∷ 0 ∷ 0 ∷ 0 ∷ 0 ∷ 0 ∷ 128 ∷ 0 ∷ 0 ∷ 0 ∷ 0 ∷ 0 ∷ 0 ∷ []

half_drawn : full_jitter 1000 uuid ≡ 500
unfolding full_jitter jitter_numerator
half_drawn = refl

abbrev conflict : Error
conflict = status_error "failed to put node" (record {
  code = aborted;
  message = sent "write conflict, retry";
  reason_metadata = none;
  sources = [];
})

-- A world of three counters: the calls of the operation, the time slept, and the sleeps that were too
-- long.
abbrev Counters : Type 0
Counters = ℕ × (ℕ × ℕ)

-- An operation that fails twice and then succeeds.
abbrev third_time : Effects Counters ℕ
third_time = record {
  op = λ w. (if ltb w.0 2 then err conflict else ok 7, (w.0 + 1, w.1));
  new_v4 = λ w. (uuid, w);
  sleep = λ d w. (w.0, (w.1.0 + d, if leb d new.max_delay then w.1.1 else w.1.1 + 1));
}

meters : Meters third_time new.max_delay
meters = record {
  calls = λ w. w.0;
  slept = λ w. w.1.0;
  op_calls = λ w. refl;
  op_slept = λ w. refl;
  new_v4_calls = λ w. refl;
  new_v4_slept = λ w. refl;
  sleep_calls = λ d w. refl;
  sleep_slept = λ d w. refl;
  long = λ w. w.1.1;
  op_long = λ w. refl;
  new_v4_long = λ w. refl;
  sleep_long = λ d w. refl;
}

-- 50 ms and 100 ms: half of the two ceilings.
third_time-run : retry third_time new (0, (0, 0)) ≡ some (ok 7, (3, (from_millis 150, 0)))
unfolding retry retry_from attempts should_retry delay full_jitter delay_ceiling jitter_numerator
third_time-run = refl

retry_calls_example :
    (answer : Result Error ℕ) × (w' : Counters) × (retry third_time new (0, (0, 0))
      ≡ some (answer, w'))
    × (0 + 1 ≤ meters.calls w')
    × (meters.calls w' ≤ 0 + attempts new)
    × (meters.slept w' + new.max_delay ≤ 0 + attempts new * new.max_delay)
    × (meters.long w' ≡ 0)
    × ((e : Error)
        → answer ≡ err e
        → should_retry new e ≡ true
        → meters.calls w' ≡ 0 + attempts new)
unfolding meters
retry_calls_example = retry_calls third_time new meters (0, (0, 0))
