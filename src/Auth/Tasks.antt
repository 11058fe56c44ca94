-- ===== src/Auth/Tasks.antt =====
-- Calls of the token manager of `src/auth.rs` that run side by side, at the grain at which they can
-- interfere: one lock taken, one atomic read or write, one cell of the cache written, one request to
-- the identity provider.
--
-- A task is one call of `refresh_now` or of `ensure_fresh`: a caller's, or a round of the background
-- task. A task that waits for the lock or for the provider can be dropped, which is what
-- `TokenRefreshGuard::drop` does by `abort`, and what a caller's own timeout does. The tasks are
-- scheduled in any order; between two of their steps the rest of the world may move.
pub mod Ledger
pub mod Steps
pub mod Calls
pub mod Frames
pub mod Answers
pub mod Requests
pub mod Burst
pub mod Turns
pub mod Progress
mod Tests
use Prim.Native.String.{String}
use rociadb_core_sdk_rust.Prelude.{
  ℕ, not, Option, none, some, List, [], ◌∷◌, leb, ◌==◌, if◌then◌else◌, Result, ◌>>=◌, Action, ok,
  err,
}
use rociadb_core_sdk_rust.Duration.{Duration}
use rociadb_core_sdk_rust.Error.{Error}
use rociadb_core_sdk_rust.Auth.{
  TokenManager, TokenResponse, Provider, remaining, issued_now, fetch_add_one, failure_of,
  shared_answer, build_header,
}

abbrev pub Outcome : Type 0
Outcome = Result Error (Unit {0})

-- Where a call stands, with the local variables that it still needs; `ℕ` is its
-- `observed_generation`.
pub data Pc : Type 0 where
  asked : Duration → Pc
  started : Pc
  queued : ℕ → Pc
  holding : ℕ → Pc
  fetching : ℕ → Pc
  fetched : ℕ → Result Error (TokenResponse × String) → Pc
  stamped : ℕ → String → Pc
  attempted : ℕ → Outcome → Pc
  recorded : ℕ → Outcome → Pc
  returned : ℕ → Outcome → Pc
  still_fresh : Pc
  dropped : Pc

-- `holder` is the task in `refresh_lock`.
pub record System (E : Type 0) : Type 0 where
  pub manager : TokenManager
  pub world : E
  pub holder : Option ℕ
  pub pc : ℕ → Pc

abbrev pub update : (ℕ → Pc) → ℕ → Pc → ℕ → Pc
update pc i p j = if j == i then p else pc j

abbrev pub move : {E : Type 0} → ℕ → Pc → System E → System E
move i p s = record s { pc = update s.pc i p }

-- The end of a call that held the lock.
abbrev pub release : {E : Type 0} → ℕ → Pc → System E → System E
release i p s = record s { holder = none; pc = update s.pc i p }

-- What happens next: a task takes its next step, a task is dropped, or the world moves.
pub data Event (E : Type 0) : Type 0 where
  turn : ℕ → Event E
  cancel : ℕ → Event E
  passes : (E → E) → Event E

-- The outcome of the attempt that a task's next step completes, if it completes one.
abbrev pub completed_by : Pc → Option Outcome
completed_by (recorded observed r) = some r
completed_by p = none

abbrev pub noted : Option Outcome → List Outcome → List Outcome
noted none log = log
noted (some r) log = r ∷ log

module _ {E : Type 0} (idp : Provider E) where
  -- `refresh_lock.lock().await`: a task that finds the lock taken stays where it is.
  abbrev pub acquire : ℕ → ℕ → Option ℕ → System E → System E
  acquire i observed none s = record s { holder = some i; pc = update s.pc i (holding observed) }
  acquire i observed (some j) s = s

  -- One step of `ensure_fresh`, `refresh_now` and `fetch_and_install`.
  unfoldable pub advance : ℕ → Pc → System E → System E
  advance i (asked margin) s =
      if leb margin (remaining (idp.now s.world) s.manager.lifetime)
      then move i still_fresh s
      else move i started s
  advance i started s = move i (queued s.manager.refresh_generation) s
  advance i (queued observed) s = acquire i observed s.holder s
  advance i (holding observed) s =
      if not (s.manager.refresh_generation == observed)
      then release i (returned observed (shared_answer s.manager.last_attempt_failure)) s
      else (record s {
        manager = record s.manager { fetch_attempts = fetch_add_one s.manager.fetch_attempts };
        pc = update s.pc i (fetching observed);
      })
  advance i (fetching observed) s =
      let (answer, world) = idp.fetch_token s.world in
      let made : Result Error (TokenResponse × String) =
        answer >>= λ token. build_header idp token >>= λ header. ok (token, header) in
      record s { world = world; pc = update s.pc i (fetched observed made) }
  advance i (fetched observed (err x)) s = move i (attempted observed (err x)) s
  advance i (fetched observed (ok (token, header))) s = record s {
    manager = record s.manager { lifetime = issued_now (idp.now s.world) token.expires_in };
    pc = update s.pc i (stamped observed header);
  }
  advance i (stamped observed header) s = record s {
    manager = record s.manager { header_value = header };
    pc = update s.pc i (attempted observed (ok tt));
  }
  advance i (attempted observed r) s = record s {
    manager = record s.manager { last_attempt_failure = failure_of r };
    pc = update s.pc i (recorded observed r);
  }
  advance i (recorded observed r) s = release i (returned observed r) (record s {
    manager = record s.manager { refresh_generation = fetch_add_one s.manager.refresh_generation };
  })
  advance i (returned observed r) s = s
  advance i still_fresh s = s
  advance i dropped s = s

  -- A call is dropped where it waits: for the lock, which it then never takes, or for the provider,
  -- which lets the lock go.
  unfoldable pub drop_call : ℕ → Pc → System E → System E
  drop_call i (queued observed) s = move i dropped s
  drop_call i (fetching observed) s = release i dropped s
  drop_call i p s = s

  unfoldable pub step : Event E → System E → System E
  unfolding advance drop_call
  step (turn i) s = advance i (s.pc i) s
  step (cancel i) s = drop_call i (s.pc i) s
  step (passes f) s = record s { world = f s.world }

  abbrev pub completes : Event E → System E → Option Outcome
  completes (turn i) s = completed_by (s.pc i)
  completes (cancel i) s = none
  completes (passes f) s = none

  -- The system after a schedule, with the outcomes of the attempts that were completed in it, the
  -- newest first.
  unfoldable pub run : List (Event E) → List Outcome × System E → List Outcome × System E
  run [] (log, s) = (log, s)
  run (event ∷ events) (log, s) = run events (noted (completes event s) log, step event s)
