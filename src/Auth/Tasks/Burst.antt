-- ===== src/Auth/Tasks/Burst.antt =====
-- A burst of callers of the token manager of `src/auth.rs` that wait for the refresh lock at once.
use mathlib.Core.Path.{subst}
use rociadb_core_sdk_rust.Prelude.{
  ℕ, ◌+◌, ◌^◌, ◌≤◌, ◌<◌, ◌≡◌, refl, inl, inr, Bool, Option, none, List, [], ◌∷◌, arith,
  if◌then◌else◌, Bool-cases, Option-cases, length,
}
use rociadb_core_sdk_rust.Auth.{TokenManager, Provider}
use rociadb_core_sdk_rust.Auth.Tasks.{
  Outcome, Pc, queued, fetching, fetched, stamped, attempted, recorded, returned, dropped, System,
  Event, turn, cancel, passes, completed_by, noted, step, completes, run,
}
use rociadb_core_sdk_rust.Auth.Tasks.Ledger.{AnsweredBy, Cached, TaskOk, Sound, Told}
use rociadb_core_sdk_rust.Auth.Tasks.Steps.{step-Sound, run-Sound, length-noted}
use rociadb_core_sdk_rust.Auth.Tasks.Frames.{Observing, step-Observing}
use rociadb_core_sdk_rust.Auth.Tasks.Requests.{
  in_flight, flight, cancels, Spent, run-Spent, Meter, Quiet,
}

-- The callers wait for a free lock, all with the current generation observed.
abbrev pub burst : {E : Type 0} → TokenManager → E → (ℕ → Bool) → System E
burst m e waiting = record {
  manager = m;
  world = e;
  holder = none;
  pc = λ j. if waiting j then queued m.refresh_generation else dropped;
}

module _ {E : Type 0} (idp : Provider E) (base : ℕ) where
  abbrev InBurst : Pc → Type 0
  InBurst = Observing (λ g. g ≡ base) ⊥

  completed_by-first :
      (log : List Outcome) (s : System E) (i : ℕ) (p : Pc)
      → Sound idp base log s
      → TaskOk idp base log s.manager s.holder i p
      → InBurst p
      → length log ≤ 1
      → length (noted (completed_by p) log) ≤ 1
  completed_by-first log s i (recorded g r) sound here now short =
      omega (arith, here.1, now, sound.counted)
  completed_by-first log s i p sound here now short = short

  completes-first :
      (log : List Outcome) (s : System E) (event : Event E)
      → Sound idp base log s
      → ((j : ℕ) → InBurst (s.pc j))
      → length log ≤ 1
      → length (noted (completes idp event s) log) ≤ 1
  completes-first log s (turn i) sound all short =
      completed_by-first log s i (s.pc i) sound (sound.tasks i) (all i) short
  completes-first log s (cancel i) sound all short = short
  completes-first log s (passes f) sound all short = short

  -- A request is under way only while no attempt has been completed.
  flown :
      (log : List Outcome) (m : TokenManager) (h : Option ℕ) (i : ℕ) (p : Pc)
      → m.refresh_generation ≡ base + length log
      → TaskOk idp base log m h i p
      → InBurst p
      → length log ≤ 1
      → length log + in_flight p ≤ 1
  flown log m h i (fetching g) counted here now short = omega (arith, here.1, now, counted)
  flown log m h i (fetched g made) counted here now short = omega (arith, here.1, now, counted)
  flown log m h i (stamped g header) counted here now short = omega (arith, here.1, now, counted)
  flown log m h i (attempted g r) counted here now short = omega (arith, here.1, now, counted)
  flown log m h i (recorded g r) counted here now short = omega (arith, here.1, now, counted)
  flown log m h i p counted here now short = omega (arith, short)

  -- A burst completes one attempt at most.
  run-first :
      (events : List (Event E)) (log : List Outcome) (s : System E)
      → base + length log + length events < 2 ^ 64
      → Sound idp base log s
      → ((j : ℕ) → InBurst (s.pc j))
      → length log ≤ 1
      → let (log', s') = run idp events (log, s) in
        (length log' ≤ 1) × (length log' + flight s'.holder s'.pc ≤ 1)
  unfolding run
  run-first [] log s fits sound all short = (
    short,
    elim (Option-cases s.holder) [
      | inl free ↦ rw free (omega (arith, short))
      | inr (i, held) ↦
          rw held
            (flown log s.manager s.holder i (s.pc i) sound.counted (sound.tasks i) (all i) short)
    ],
  )
  run-first (event ∷ events) log s fits sound all short =
      let log' : List Outcome = noted (completes idp event s) log in
      run-first events log' (step idp event s)
        (omega (arith, fits, length-noted idp base (completes idp event s) log))
        (step-Sound idp base log s event (omega (arith, fits)) sound)
        (λ j. step-Observing idp (λ g. g ≡ base) ⊥ j event s (λ b. absurd b) (all j))
        (completes-first log s event sound all short)

module _ {E : Type 0} (idp : Provider E) (m : TokenManager) (cached : Cached idp 0 m) (w : E)
    (waiting : ℕ → Bool) (meter : Meter idp) where
  waiting-TaskOk :
      (j : ℕ)
      → TaskOk idp m.refresh_generation [] m none j
          (if waiting j then queued m.refresh_generation else dropped)
  waiting-TaskOk j = elim (Bool-cases (waiting j)) [
    | inl waits ↦ rw waits (refl, omega arith, omega arith)
    | inr absent ↦ rw absent refl
  ]

  waiting-InBurst :
      (j : ℕ)
      → InBurst idp m.refresh_generation
          (if waiting j then queued m.refresh_generation else dropped)
  waiting-InBurst j = elim (Bool-cases (waiting j)) [
    | inl waits ↦ rw waits refl
    | inr absent ↦ rw absent tt
  ]

  -- What an answer can be when there is at most one outcome.
  only_outcome :
      (g : ℕ) (r : Outcome) (log : List Outcome)
      → length log ≤ 1
      → AnsweredBy m.refresh_generation g r log
      → (o : Outcome) × (log ≡ o ∷ []) × Told o r
  only_outcome g r [] short answer = absurd answer
  only_outcome g r (o ∷ []) short (inl (late, is)) = (o, refl, is)
  only_outcome g r (o ∷ []) short (inr nothing) = absurd nothing
  only_outcome g r (o ∷ next ∷ older) short answer = absurd (omega arith)

  -- However many calls of `refresh_now` wait for the free refresh lock with the current generation
  -- observed, and however they then take turns: the identity provider gets one request, and one more
  -- at most for every call that is dropped; at most one attempt is completed; and every call that
  -- returns is told its outcome: a success as one, a failure as it is or as an authentication error
  -- that quotes it. Nothing else makes requests. The manager's header and lifetime come from one answer of the provider, and the generation and the
  -- events are together fewer than 2 ^ 64.
  pub burst_makes_one_request :
      (events : List (Event E))
      → Quiet idp meter events
      → m.refresh_generation + length events < 2 ^ 64
      → let (log, s) = run idp events ([], burst m w waiting) in
        (meter.requests s.world ≤ meter.requests w + 1 + cancels events)
        × (length log ≤ 1)
        × ((j g : ℕ) (r : Outcome)
            → s.pc j ≡ returned g r
            → (o : Outcome) × (log ≡ o ∷ []) × Told o r)
  burst_makes_one_request events quiet fits =
      let base : ℕ = m.refresh_generation in
      let start : System E = burst m w waiting in
      let begins : Sound idp base [] start = record {
        counted = omega arith;
        idle = λ free. (
          tt,
          record {
            token = cached.token;
            request = cached.request;
            answered = cached.answered;
            made = cached.made;
            lasting = cached.lasting;
          },
        );
        tasks = waiting-TaskOk;
      } in
      let (log, s) = run idp events ([], start) in
      let sound : Sound idp base log s =
        run-Sound idp base events [] start (omega (arith, fits)) begins in
      let (short, one) =
        run-first idp base events [] start (omega (arith, fits)) begins waiting-InBurst
          (omega arith) in
      let spent : Spent idp base meter (meter.requests w) (0 + cancels events) log s =
        run-Spent idp base meter (meter.requests w) events 0 [] start quiet (omega (arith, fits))
          begins (omega arith) in
      (
        omega (arith, spent, one),
        short,
        λ j g r ends.
            only_outcome g r log short
              (subst (λ p. TaskOk idp base log s.manager s.holder j p) ends (sound.tasks j)).1,
      )
