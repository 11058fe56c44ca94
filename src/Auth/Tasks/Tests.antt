-- ===== src/Auth/Tasks/Tests.antt =====
-- Schedules of concurrent calls of the token manager, and the theorems on them at concrete inputs.
use rociadb_core_sdk_rust.Prelude.{
  ℕ, ◌+◌, ◌≤◌, ◌≡◌, refl, Bool, false, Option, none, some, List, [], ◌∷◌, ◌++◌, ltb, arith, ◌==◌,
  if◌then◌else◌, length, ok, err,
}
use rociadb_core_sdk_rust.Duration.{Duration, from_secs}
use rociadb_core_sdk_rust.Error.{Error, auth, text}
use rociadb_core_sdk_rust.Auth.{TokenManager, Provider, new, remaining, shared_answer}
use rociadb_core_sdk_rust.Auth.Tasks.{
  Outcome, started, returned, still_fresh, Event, turn, cancel, step, run,
}
use rociadb_core_sdk_rust.Auth.Tasks.Ledger.{AnsweredBy, Cached, Told}
use rociadb_core_sdk_rust.Auth.Tasks.Calls.{launch, InLock, IsStamped, calls_are_orderly}
use rociadb_core_sdk_rust.Auth.Tasks.Answers.{refresh_answer}
use rociadb_core_sdk_rust.Auth.Tasks.Requests.{cancels, Meter}
use rociadb_core_sdk_rust.Auth.Tasks.Burst.{burst, burst_makes_one_request}
use rociadb_core_sdk_rust.Auth.Tasks.Progress.{every_call_can_end, TurnsOf}
use rociadb_core_sdk_rust.Auth.Tasks.Turns.{turns, IsOver}

abbrev refused : Error
refused = auth (text "token endpoint returned error") none

-- A provider that grants a short token first, a long one next, and then nothing.
abbrev provider : Provider ℕ
provider = record {
  fetch_token = λ e. (
    if e == 0
        then ok (record { access_token = "short"; expires_in = 30; token_type = "Bearer" })
        else if e == 1
        then ok (record { access_token = "long"; expires_in = 600; token_type = "Bearer" })
        else err refused,
    e + 1,
  );
  parse_header = λ h. ok h;
  now = λ e. 0;
}

abbrev first_token : TokenManager
first_token = record {
  header_value = "Bearer short";
  lifetime = record { fetched_at = 0; lasts = 30 };
  fetch_attempts = 0;
  refresh_generation = 0;
  last_attempt_failure = none;
  refresh_notify = false;
}

made : (new provider 0).0 ≡ ok first_token
unfolding new
made = refl

-- The call 0 refreshes, and every other one asks for a minute.
abbrev calls : ℕ → Option Duration
calls i = if i == 0 then none else some (from_secs 60)

-- The call 0 has written the lifetime, and not yet the header.
abbrev half_written : List (Event ℕ)
half_written = turns 0 5

-- In that state `ensure_fresh` finds a fresh lifetime beside the header of the token that it replaces.
half_written_is_fresh :
    let (log, s) = run provider (half_written ++ turn 1 ∷ []) ([], launch first_token 1 calls) in
    (s.pc 1 ≡ still_fresh)
    × (s.manager.header_value ≡ "Bearer short")
    × (s.manager.lifetime.lasts ≡ 600)
unfolding run step remaining
half_written_is_fresh = (refl, refl, refl)

calls_are_orderly_example :
    let (log, s) = run provider (turns 0 8) ([], launch first_token 1 calls) in
    ((i j : ℕ) → InLock (s.pc i) → InLock (s.pc j) → i ≡ j)
    × (s.manager.refresh_generation ≡ length log)
    × (((j : ℕ) → IsStamped (s.pc j) → ⊥) → Cached provider 0 s.manager)
calls_are_orderly_example =
    calls_are_orderly provider 0 first_token calls made 1 (turns 0 8) (omega arith)

every_call_can_end_example :
    (more : List (Event ℕ)) × TurnsOf 0
      (run provider half_written ([], launch first_token 1 calls)).1.holder
      more
    × (length more ≤ 18)
    × IsOver
        ((run provider more (run provider half_written ([], launch first_token 1 calls))).1.pc 0)
every_call_can_end_example =
    every_call_can_end provider 0 first_token calls made 1 half_written 0 (omega arith)

-- Two calls of `refresh_now`, the second of which waits while the first makes its request.
abbrev both : ℕ → Option Duration
both i = none

not_begun : (run provider (turns 0 1) ([], launch first_token 2 both)).1.pc 1 ≡ started
unfolding run step
not_begun = refl

told :
    (run provider
        (turns 1 1 ++ turns 0 6 ++ turns 1 3)
        (run provider (turns 0 1) ([], launch first_token 2 both))).1.pc
      1
    ≡ returned 0 (shared_answer (some refused))
unfolding run step
told = refl

refresh_answer_example :
    AnsweredBy 0 0
      (shared_answer (some refused))
      (run provider
        (turns 1 1 ++ turns 0 6 ++ turns 1 3)
        (run provider (turns 0 1) ([], launch first_token 2 both))).0
unfolding run step
refresh_answer_example =
    refresh_answer provider 0 first_token both made 2 (turns 0 1)
      (turns 1 1 ++ turns 0 6 ++ turns 1 3) 1 0 (shared_answer (some refused)) (omega arith)
      not_begun told

first_token-Cached : Cached provider 0 first_token
first_token-Cached = record {
  token = record { access_token = "short"; expires_in = 30; token_type = "Bearer" };
  request = 0;
  answered = refl;
  made = refl;
  lasting = refl;
}

-- Three callers of a provider that refuses; the call 1 is dropped while it waits.
abbrev three : ℕ → Bool
three i = ltb i 3

abbrev crowd : List (Event ℕ)
crowd = turns 0 2 ++ cancel 1 ∷ turns 0 5 ++ turns 2 3

abbrev meter : Meter provider
meter = record { requests = λ e. e; fetch_counts = λ e. refl }

burst_makes_one_request_example :
    let (log, s) = run provider crowd ([], burst first_token 2 three) in
    (s.world ≤ 2 + 1 + cancels crowd)
    × (length log ≤ 1)
    × ((j g : ℕ) (r : Outcome) → s.pc j ≡ returned g r → (o : Outcome) × (log ≡ o ∷ []) × Told o r)
burst_makes_one_request_example =
    burst_makes_one_request provider first_token first_token-Cached 2 three meter crowd tt
      (omega arith)

crowd_told :
    let (log, s) = run provider crowd ([], burst first_token 2 three) in
    (s.world ≡ 3) × (s.pc 2 ≡ returned 0 (shared_answer (some refused)))
unfolding run step
crowd_told = (refl, refl)
