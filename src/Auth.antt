-- ===== src/Auth.antt =====
-- `src/auth.rs`: the token manager, its single-flight refresh, the background refresh task and the
-- interceptor.
--
-- The identity provider, the parser of header values and the monotonic clock are arguments; an
-- instant is a number of nanoseconds. What the tasks share is the record `TokenManager`: a lock's
-- guarded value is a field, and a `Notify` is whether it holds a permit. Other tasks run only while
-- a task waits for the refresh lock: the argument `wait` is what they do to the shared state
-- meanwhile.
pub mod Lifetime
pub mod Refresh
pub mod Background
pub mod Token
pub mod Tasks
mod Tests
use Prim.Native.String.{String, ◌++◌}
use rociadb_core_sdk_rust.Prelude.{
  ℕ, ◌+◌, ◌-◌, ◌*◌, ◌/◌, ◌%◌, ◌^◌, min, max, Bool, true, false, not, Option, none, some, List, [],
  ◌∷◌, leb, ◌==◌, if◌then◌else◌, unwrap_or, max_u32, max_u64, Result, ◌>>=◌, Action, ok, err,
}
use rociadb_core_sdk_rust.Duration.{
  Duration, from_secs, checked_mul, checked_shl_one, max_duration, doubled,
}
use rociadb_core_sdk_rust.Error.{Error, Source, auth, text, concurrent_refresh_failed, auth_context}
use rociadb_core_sdk_rust.Retry.{full_jitter}

abbrev pub min_refresh_interval : Duration
min_refresh_interval = from_secs 5

abbrev pub refresh_retry_base_delay : Duration
refresh_retry_base_delay = from_secs 1

abbrev pub refresh_retry_max_delay : Duration
refresh_retry_max_delay = from_secs 30

-- `TokenResponse`, its access token exposed.
pub record TokenResponse : Type 0 where
  pub access_token : String
  pub expires_in : ℕ
  pub token_type : String

abbrev pub Instant : Type 0
Instant = ℕ

pub record TokenLifetime : Type 0 where
  pub fetched_at : Instant
  pub lasts : ℕ

abbrev pub issued_now : Instant → ℕ → TokenLifetime
issued_now now expires_in = record { fetched_at = now; lasts = expires_in }

-- Both subtractions saturate at zero: `elapsed` and `saturating_sub`.
unfoldable pub remaining : Instant → TokenLifetime → Duration
remaining now t = from_secs t.lasts - (now - t.fetched_at)

-- The fields of `TokenManagerInner` that change.
pub record TokenManager : Type 0 where
  pub header_value : String
  pub lifetime : TokenLifetime
  pub fetch_attempts : ℕ
  pub refresh_generation : ℕ
  pub last_attempt_failure : Option Error
  pub refresh_notify : Bool

-- `AtomicU64::fetch_add(1)`.
abbrev pub fetch_add_one : ℕ → ℕ
fetch_add_one n = (n + 1) % 2 ^ 64

unfoldable pub refresh_interval : TokenManager → Duration
refresh_interval m =
    let expires_in = m.lifetime.lasts in
    let with_margin = min (expires_in * 2) max_u64 / 3 in
    let floored = max (from_secs with_margin) min_refresh_interval in
    let ceiling = from_secs (max (expires_in - 1) 1) in min floored ceiling

abbrev pub request_refresh : TokenManager → TokenManager
request_refresh m = record m { refresh_notify = true }

abbrev pub refresh_tick_period : Duration → Duration
refresh_tick_period interval = max interval (from_secs 1)

unfoldable pub retry_backoff : ℕ → Duration
retry_backoff attempt =
    let factor = unwrap_or (checked_shl_one attempt) max_u32 in
    min (unwrap_or (checked_mul refresh_retry_base_delay factor) max_duration)
      refresh_retry_max_delay

unfoldable pub jittered_retry_backoff : ℕ → List ℕ → Duration
jittered_retry_backoff attempt uuid =
    let ceiling = retry_backoff attempt in
    let lower_half = ceiling / 2 in lower_half + full_jitter (ceiling - lower_half) uuid

-- `BearerInterceptor::call`: the value that a request's `authorization` entry is given, if any.
-- An interceptor made by `disabled` has no header to read.
abbrev pub intercept : Option TokenManager → Option String → Option String
intercept none before = before
intercept (some m) before = some m.header_value

-- `outcome.as_ref().err()`.
abbrev pub failure_of : Result Error (Unit {0}) → Option Error
failure_of (ok u) = none
failure_of (err x) = some x

-- The answer of a caller that finds the attempt it waited for completed.
abbrev pub shared_answer : Option Error → Result Error (Unit {0})
shared_answer none = ok tt
shared_answer (some x) = err (auth (concurrent_refresh_failed x) none)

-- What the manager calls and cannot see into.
pub record Provider (E : Type 0) : Type 0 where
  pub fetch_token : Action E (Result Error TokenResponse)
  pub parse_header : String → Result Source String
  pub now : E → Instant

module _ {E : Type 0} (idp : Provider E) where
  -- `build_header`.
  abbrev pub build_header : TokenResponse → Result Error String
  build_header token =
      auth_context "invalid access token metadata value"
        (idp.parse_header (token.token_type ++ (" " ++ token.access_token)))

  -- `TokenManager::new`: the lifetime is stamped before the header is built.
  unfoldable pub new : Action E (Result Error TokenManager)
  new e =
      let (answer, e') = idp.fetch_token e in
      (
        answer >>= λ token. build_header token >>= λ header. ok (record {
          header_value = header;
          lifetime = issued_now (idp.now e') token.expires_in;
          fetch_attempts = 0;
          refresh_generation = 0;
          last_attempt_failure = none;
          refresh_notify = false;
        }),
        e',
      )

  -- The end of `fetch_and_install`: the cache changes only when there is a token with a good header.
  abbrev pub install :
      Result Error (TokenResponse × String) → Action (TokenManager × E) (Result Error (Unit {0}))
  install (err x) (m, e) = (err x, (m, e))
  install (ok (token, header)) (m, e) = (
    ok tt,
    (record m { header_value = header; lifetime = issued_now (idp.now e) token.expires_in }, e),
  )

  unfoldable pub fetch_and_install : Action (TokenManager × E) (Result Error (Unit {0}))
  fetch_and_install (m, e) =
      let (answer, e') = idp.fetch_token e in
      install (answer >>= λ token. build_header token >>= λ header. ok (token, header)) (m, e')

  -- The part of `refresh_now` that makes an attempt and records it.
  unfoldable pub refresh_attempt : Action (TokenManager × E) (Result Error (Unit {0}))
  refresh_attempt (m, e) =
      let counted = record m { fetch_attempts = fetch_add_one m.fetch_attempts } in
      let (outcome, (m', e')) = fetch_and_install (counted, e) in
      (
        outcome,
        (
          record m' {
            last_attempt_failure = failure_of outcome;
            refresh_generation = fetch_add_one m'.refresh_generation;
          },
          e',
        ),
      )

  -- `refresh_now` from the moment it holds the refresh lock.
  unfoldable pub refresh_locked : ℕ → Action (TokenManager × E) (Result Error (Unit {0}))
  refresh_locked observed_generation (m, e) =
      let attempted = refresh_attempt (m, e) in
      if not (m.refresh_generation == observed_generation)
      then (shared_answer m.last_attempt_failure, (m, e))
      else attempted

  module _ (wait : TokenManager × E → TokenManager × E) where
    unfoldable pub refresh_now : Action (TokenManager × E) (Result Error (Unit {0}))
    refresh_now s = refresh_locked s.0.refresh_generation (wait s)

    unfoldable pub ensure_fresh : Duration → Action (TokenManager × E) (Result Error (Unit {0}))
    ensure_fresh margin s =
        let refreshed = refresh_now s in
        if leb margin (remaining (idp.now s.1) s.0.lifetime) then (ok tt, s) else refreshed

-- What the background task keeps: its count of failures in a row, and after how long its ticker was
-- last told to fire.
pub record RefreshTask : Type 0 where
  pub consecutive_failures : ℕ
  pub reset_after : Duration

-- What `tokio::select!` picked: the ticker, the notification, or the guard's shutdown.
pub data Wake : Type 0 where
  ticked notified shutdown : Wake

abbrev pub saturating_add_u32 : ℕ → ℕ → ℕ
saturating_add_u32 a b = min (a + b) max_u32

module _ {E : Type 0} (idp : Provider E) (wait : TokenManager × E → TokenManager × E) where
  -- One round of the loop of `spawn_refresh` after it was woken for a refresh; `uuid` is the one
  -- that `jittered_retry_backoff` draws.
  unfoldable pub refresh_round :
      List ℕ → RefreshTask × (TokenManager × E) → RefreshTask × (TokenManager × E)
  refresh_round uuid (task, s) =
      let (outcome, s') = refresh_now idp wait s in
      elim outcome [
        | ok _ ↦ (record { consecutive_failures = 0; reset_after = refresh_interval s'.0 }, s')
        | err x ↦ (
          record {
            consecutive_failures = saturating_add_u32 task.consecutive_failures 1;
            reset_after = jittered_retry_backoff task.consecutive_failures uuid;
          },
          s',
        )
      ]

  -- The task over the wakes that come, each with its UUID; a notification takes the permit.
  unfoldable pub run_task :
      List (Wake × List ℕ) → RefreshTask × (TokenManager × E) → RefreshTask × (TokenManager × E)
  run_task [] ts = ts
  run_task ((ticked, uuid) ∷ wakes) ts = run_task wakes (refresh_round uuid ts)
  run_task ((notified, uuid) ∷ wakes) (task, (m, e)) =
      run_task wakes (refresh_round uuid (task, (record m { refresh_notify = false }, e)))
  run_task ((shutdown, uuid) ∷ wakes) ts = ts

  -- `spawn_refresh`: the task begins without failures and with the given period.
  unfoldable pub spawn_refresh :
      Duration → List (Wake × List ℕ) → TokenManager × E → RefreshTask × (TokenManager × E)
  spawn_refresh interval wakes s =
      run_task wakes
        (record { consecutive_failures = 0; reset_after = refresh_tick_period interval }, s)
