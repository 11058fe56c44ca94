-- ===== src/Auth/Tasks/Answers.antt =====
-- What calls of the token manager of `src/auth.rs` that run side by side are told: outcomes of
-- attempts that were completed after they began.
use mathlib.Core.Path.{subst}
use rociadb_core_sdk_rust.Prelude.{
  ℕ, ◌+◌, ◌^◌, ◌≤◌, ◌<◌, ◌≡◌, inl, inr, Option, List, [], ◌∷◌, arith, length, ok,
}
use rociadb_core_sdk_rust.Duration.{Duration}
use rociadb_core_sdk_rust.Auth.{TokenManager, Provider, new}
use rociadb_core_sdk_rust.Auth.Tasks.{
  Outcome, Pc, started, returned, System, Event, noted, step, completes, run,
}
use rociadb_core_sdk_rust.Auth.Tasks.Ledger.{AnsweredBy, TaskOk, Sound}
use rociadb_core_sdk_rust.Auth.Tasks.Steps.{step-Sound, run-Sound, length-noted}
use rociadb_core_sdk_rust.Auth.Tasks.Frames.{Observing, step-Observing}
use rociadb_core_sdk_rust.Auth.Tasks.Calls.{launch, launch-Sound}

-- The call began, if it has begun, when `k` attempts had been completed.
abbrev Since : ℕ → Pc → Type 0
Since k = Observing (λ g. k ≤ g) (Unit {0})

module _ {E : Type 0} (idp : Provider E) where
  run-Since :
      (k i : ℕ) (events : List (Event E)) (log : List Outcome) (s : System E)
      → length log + length events < 2 ^ 64
      → Sound idp 0 log s
      → k ≤ length log
      → Since k (s.pc i)
      → Since k ((run idp events (log, s)).1.pc i)
  unfolding run
  run-Since k i [] log s fits sound old since = since
  run-Since k i (event ∷ events) log s fits sound old since =
      let log' : List Outcome = noted (completes idp event s) log in
      let longer : (length log ≤ length log') × (length log' ≤ length log + 1) =
        length-noted idp 0 (completes idp event s) log in
      run-Since k i events log' (step idp event s) (omega (arith, fits, longer))
        (step-Sound idp 0 log s event (omega (arith, fits)) sound) (omega (arith, old, longer))
        (step-Observing idp (λ g. k ≤ g) (Unit {0}) i event s
          (λ u. omega (arith, old, sound.counted)) since)

  -- An answer that is late enough for `g` is late enough for an earlier `k`.
  AnsweredBy-earlier :
      (k g : ℕ) (r : Outcome) (log : List Outcome)
      → k ≤ g
      → AnsweredBy 0 g r log
      → AnsweredBy 0 k r log
  AnsweredBy-earlier k g r [] earlier answer = answer
  AnsweredBy-earlier k g r (o ∷ older) earlier (inl (late, is)) = inl (omega arith, is)
  AnsweredBy-earlier k g r (o ∷ older) earlier (inr answer) =
      inr (AnsweredBy-earlier k g r older earlier answer)

  pub length-run :
      (events : List (Event E)) (log : List Outcome) (s : System E)
      → length (run idp events (log, s)).0 ≤ length log + length events
  unfolding run
  length-run [] log s = omega arith
  length-run (event ∷ events) log s = omega (
    arith,
    length-run events (noted (completes idp event s) log) (step idp event s),
    length-noted idp 0 (completes idp event s) log,
  )

  -- A call of `refresh_now` that had not begun after a first schedule, and that has returned after a
  -- second one, was told the outcome of an attempt that was completed in between: a success
  -- as one, a failure as it is or as an authentication error that quotes it. The calls are those of a
  -- new token manager, run side by side and dropped in any way, in fewer than 2 ^ 64 events.
  pub refresh_answer :
      (e : E) (m : TokenManager) (calls : ℕ → Option Duration)
      → (new idp e).0 ≡ ok m
      → (w : E) (first second : List (Event E)) (i g : ℕ) (r : Outcome)
      → length first + length second < 2 ^ 64
      → let (log, s) = run idp first ([], launch m w calls) in
        let (log', s') = run idp second (log, s) in
        s.pc i ≡ started → s'.pc i ≡ returned g r → AnsweredBy 0 (length log) r log'
  refresh_answer e m calls made w first second i g r fits begins ends =
      let (log, s) = run idp first ([], launch m w calls) in
      let (log', s') = run idp second (log, s) in
      let sound : Sound idp 0 log s =
        run-Sound idp 0 first [] (launch m w calls) (omega (arith, fits))
          (launch-Sound idp e m calls made w) in
      let room : length log + length second < 2 ^ 64 =
        omega (arith, fits, length-run first [] (launch m w calls)) in
      let sound' : Sound idp 0 log' s' = run-Sound idp 0 second log s (omega (arith, room)) sound in
      let since : Since (length log) (s'.pc i) =
        run-Since (length log) i second log s room sound (omega arith) (rw begins tt) in
      let late : length log ≤ g = subst (Since (length log)) ends since in
      AnsweredBy-earlier (length log) g r log' late
        (subst (λ p. TaskOk idp 0 log' s'.manager s'.holder i p) ends (sound'.tasks i)).1
