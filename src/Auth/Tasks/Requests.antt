-- ===== src/Auth/Tasks/Requests.antt =====
-- How many requests reach the identity provider when many calls of the token manager of
-- `src/auth.rs` wait for the refresh lock at once.
use rociadb_core_sdk_rust.Prelude.{
  ℕ, ◌+◌, ◌^◌, ◌≤◌, ◌<◌, ◌≡◌, refl, sym, ◌∙◌, inl, inr, true, false, Option, none, some, List, [],
  ◌∷◌, ◌>>=◌, leb, arith, ◌==◌, Bool-cases, length, ok, err,
}
use rociadb_core_sdk_rust.Auth.{Provider, remaining, build_header}
use rociadb_core_sdk_rust.Auth.Tasks.{
  Outcome, Pc, asked, started, queued, holding, fetching, fetched, stamped, attempted, recorded,
  returned, still_fresh, dropped, System, update, Event, turn, cancel, passes, completed_by, noted,
  acquire, advance, drop_call, step, completes, run,
}
use rociadb_core_sdk_rust.Auth.Tasks.Ledger.{holds, TaskOk, Sound}
use rociadb_core_sdk_rust.Auth.Tasks.Steps.{step-Sound, length-noted}

-- The task has made a request of its own whose attempt is not yet completed.
abbrev pub in_flight : Pc → ℕ
in_flight (fetched g made) = 1
in_flight (stamped g header) = 1
in_flight (attempted g r) = 1
in_flight (recorded g r) = 1
in_flight p = 0

abbrev pub flight : Option ℕ → (ℕ → Pc) → ℕ
flight none pc = 0
flight (some i) pc = in_flight (pc i)

-- How many times a task is dropped in a schedule.
abbrev is_cancel : {E : Type 0} → Event E → ℕ
is_cancel (cancel i) = 1
is_cancel event = 0

abbrev pub cancels : {E : Type 0} → List (Event E) → ℕ
cancels [] = 0
cancels (event ∷ events) = is_cancel event + cancels events

flight_self : (i : ℕ) (p : Pc) (pc : ℕ → Pc) → flight (some i) (update pc i p) ≡ in_flight p
flight_self i p pc = let self : (i == i) ≡ true = ground arith in rw self refl

flight_other :
    (h : Option ℕ) (j : ℕ) (p : Pc) (pc : ℕ → Pc)
    → holds h j ≡ false
    → flight h (update pc j p) ≡ flight h pc
flight_other none j p pc away = refl
flight_other (some i) j p pc away = let other : (i == j) ≡ false = ground arith in rw other refl

-- The holder goes on with its request, or goes on without one.
flight_kept :
    (h : Option ℕ) (i : ℕ) (q : Pc) (pc : ℕ → Pc)
    → h ≡ some i
    → in_flight (pc i) ≡ in_flight q
    → flight h (update pc i q) ≡ flight h pc
flight_kept h i q pc held same = rw held (flight_self i q pc ∙ sym same)

-- `requests` reads off the world how many requests the identity provider has got.
pub record Meter {E : Type 0} (idp : Provider E) : Type 0 where
  pub requests : E → ℕ
  pub fetch_counts : (e : E) → requests (idp.fetch_token e).1 ≡ requests e + 1

-- The world's own moves make no request.
abbrev pub Quiet : {E : Type 0} (idp : Provider E) → Meter idp → List (Event E) → Type 0
Quiet idp meter [] = Unit {0}
Quiet {E} idp meter (passes f ∷ rest) =
    ((e : E) → meter.requests (f e) ≡ meter.requests e) × Quiet idp meter rest
Quiet idp meter (turn i ∷ rest) = Quiet idp meter rest
Quiet idp meter (cancel i ∷ rest) = Quiet idp meter rest

module _ {E : Type 0} (idp : Provider E) (base : ℕ) (meter : Meter idp) (before : ℕ) where
  -- The requests so far are the attempts completed, those given up, and the one under way.
  abbrev pub Spent : ℕ → List Outcome → System E → Type 0
  Spent given_up log s =
      meter.requests s.world ≤ before + length log + flight s.holder s.pc + given_up

  advance-Spent :
      (k : ℕ) (log : List Outcome) (s : System E) (i : ℕ) (p : Pc)
      → s.pc i ≡ p
      → TaskOk idp base log s.manager s.holder i p
      → Spent k log s
      → Spent k (noted (completed_by p) log) (advance idp i p s)
  unfolding advance
  advance-Spent k log s i (asked margin) at here spent =
      elim (Bool-cases (leb margin (remaining (idp.now s.world) s.manager.lifetime))) [
        | inl lasts ↦ rw lasts (omega (arith, spent, flight_other s.holder i still_fresh s.pc here))
        | inr short ↦ rw short (omega (arith, spent, flight_other s.holder i started s.pc here))
      ]
  advance-Spent k log s i started at here spent =
      omega (arith, spent, flight_other s.holder i (queued s.manager.refresh_generation) s.pc here)
  advance-Spent k log s i (queued g) at here spent = acquired s.holder refl
    where
      acquired : (h : Option ℕ) → s.holder ≡ h → Spent k log (acquire idp i g h s)
      acquired (some j) taken = spent
      acquired none free =
          let empty : flight s.holder s.pc ≡ 0 = rw free refl in
          omega (arith, spent, empty, flight_self i (holding g) s.pc)
  advance-Spent k log s i (holding g) at here spent =
      let now : flight s.holder s.pc ≡ 0 = rw (here.0, at) refl in
      elim (Bool-cases (s.manager.refresh_generation == g)) [
        | inl current ↦ rw current (
            let next : flight s.holder (update s.pc i (fetching g)) ≡ 0 =
              rw here.0 (flight_self i (fetching g) s.pc) in
            omega (arith, spent, now, next))
        | inr stale ↦ rw stale (omega (arith, spent, now))
      ]
  advance-Spent k log s i (fetching g) at here spent =
      let q : Pc = fetched g (
        (idp.fetch_token s.world).0 >>= λ token.
        build_header idp token >>= λ header. ok (token, header)) in
      let now : flight s.holder s.pc ≡ 0 = rw (here.0, at) refl in
      let next : flight s.holder (update s.pc i q) ≡ 1 = rw here.0 (flight_self i q s.pc) in
      omega (arith, spent, now, next, meter.fetch_counts s.world)
  advance-Spent k log s i (fetched g (err x)) at here spent =
      rw (flight_kept s.holder i (attempted g (err x)) s.pc here.0 (rw at refl)) spent
  advance-Spent k log s i (fetched g (ok (token, header))) at here spent =
      rw (flight_kept s.holder i (stamped g header) s.pc here.0 (rw at refl)) spent
  advance-Spent k log s i (stamped g header) at here spent =
      rw (flight_kept s.holder i (attempted g (ok tt)) s.pc here.0 (rw at refl)) spent
  advance-Spent k log s i (attempted g r) at here spent =
      rw (flight_kept s.holder i (recorded g r) s.pc here.0 (rw at refl)) spent
  advance-Spent k log s i (recorded g r) at here spent =
      let now : flight s.holder s.pc ≡ 1 = rw (here.0, at) refl in omega (arith, spent, now)
  advance-Spent k log s i (returned g r) at here spent = spent
  advance-Spent k log s i still_fresh at here spent = spent
  advance-Spent k log s i dropped at here spent = spent

  drop_call-Spent :
      (k : ℕ) (log : List Outcome) (s : System E) (i : ℕ) (p : Pc)
      → s.pc i ≡ p
      → TaskOk idp base log s.manager s.holder i p
      → Spent k log s
      → Spent (k + 1) log (drop_call idp i p s)
  unfolding drop_call
  drop_call-Spent k log s i (queued g) at here spent =
      omega (arith, spent, flight_other s.holder i dropped s.pc here.0)
  drop_call-Spent k log s i (fetching g) at here spent =
      let now : flight s.holder s.pc ≡ 0 = rw (here.0, at) refl in omega (arith, spent, now)
  drop_call-Spent k log s i p at here spent = omega (arith, spent)

  step-Spent :
      (k : ℕ) (log : List Outcome) (s : System E) (event : Event E)
      → Sound idp base log s
      → Quiet idp meter (event ∷ [])
      → Spent k log s
      → Spent (k + is_cancel event) (noted (completes idp event s) log) (step idp event s)
  unfolding step
  step-Spent k log s (turn i) sound quiet spent =
      omega (arith, advance-Spent k log s i (s.pc i) refl (sound.tasks i) spent)
  step-Spent k log s (cancel i) sound quiet spent =
      drop_call-Spent k log s i (s.pc i) refl (sound.tasks i) spent
  step-Spent k log s (passes f) sound quiet spent = omega (arith, spent, quiet.0 s.world)

  first_is_calm :
      (event : Event E) (events : List (Event E))
      → Quiet idp meter (event ∷ events)
      → Quiet idp meter (event ∷ [])
  first_is_calm (turn i) events quiet = tt
  first_is_calm (cancel i) events quiet = tt
  first_is_calm (passes f) events quiet = (quiet.0, tt)

  rest_is_calm :
      (event : Event E) (events : List (Event E))
      → Quiet idp meter (event ∷ events)
      → Quiet idp meter events
  rest_is_calm (turn i) events quiet = quiet
  rest_is_calm (cancel i) events quiet = quiet
  rest_is_calm (passes f) events quiet = quiet.1

  -- The requests that have been made are no more than the attempts completed, the calls dropped, and
  -- the one that may be under way.
  pub run-Spent :
      (events : List (Event E)) (k : ℕ) (log : List Outcome) (s : System E)
      → Quiet idp meter events
      → base + length log + length events < 2 ^ 64
      → Sound idp base log s
      → Spent k log s
      → let (log', s') = run idp events (log, s) in Spent (k + cancels events) log' s'
  unfolding run
  run-Spent [] k log s quiet fits sound spent = omega (arith, spent)
  run-Spent (event ∷ events) k log s quiet fits sound spent = omega (
    arith,
    run-Spent events (k + is_cancel event) (noted (completes idp event s) log) (step idp event s)
        (rest_is_calm event events quiet)
        (omega (arith, fits, length-noted idp base (completes idp event s) log))
        (step-Sound idp base log s event (omega (arith, fits)) sound)
        (step-Spent k log s event sound (first_is_calm event events quiet) spent),
  )
