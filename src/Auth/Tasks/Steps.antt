-- ===== src/Auth/Tasks/Steps.antt =====
-- Every step of the concurrent calls of `src/auth.rs` keeps what holds of the token manager.
use Prim.Native.String.{String}
use rociadb_core_sdk_rust.Prelude.{
  ℕ, ◌+◌, ◌^◌, ◌≤◌, ◌<◌, ◌≡◌, refl, ◌∙◌, inl, inr, false, Option, none, some, List, [], ◌∷◌, leb,
  arith, ◌==◌, Bool-cases, length, Result, Result-cases, ◌>>=◌, ok, err,
}
use rociadb_core_sdk_rust.Error.{Error}
use rociadb_core_sdk_rust.Auth.{
  TokenManager, TokenResponse, Provider, failure_of, shared_answer, build_header, remaining,
  issued_now, fetch_add_one,
}
use rociadb_core_sdk_rust.Auth.Tasks.{
  Outcome, Pc, asked, started, queued, holding, fetching, fetched, stamped, attempted, recorded,
  returned, still_fresh, dropped, System, update, Event, turn, cancel, passes, completed_by, noted,
  move, release, acquire, advance, drop_call, step, completes, run,
}
use rociadb_core_sdk_rust.Auth.Tasks.Ledger.{
  tasks_after, LastIs, AnsweredBy, Settled, Came, TaskOk, Sound, onlooker, told_shared, told_itself,
}

module _ {E : Type 0} (idp : Provider E) (base : ℕ) where
  -- A task that holds no lock moves and touches nothing that is shared.
  outside :
      (log : List Outcome) (s : System E) (i : ℕ) (p : Pc)
      → Sound idp base log s
      → TaskOk idp base log s.manager s.holder i p
      → Sound idp base log (move i p s)
  outside log s i p sound here = record {
    counted = sound.counted;
    idle = sound.idle;
    tasks =
        tasks_after (λ j q. TaskOk idp base log s.manager s.holder j q) s.pc i p here
          (λ j other. sound.tasks j);
  }

  -- The holder works under the lock and keeps it.
  under_lock :
      (log : List Outcome) (s : System E) (i : ℕ) (p : Pc) (m : TokenManager) (w : E)
      → Sound idp base log s
      → s.holder ≡ some i
      → m.refresh_generation ≡ s.manager.refresh_generation
      → TaskOk idp base log m s.holder i p
      → Sound idp base log (record s { manager = m; world = w; pc = update s.pc i p })
  under_lock log s i p m w sound held same here = record {
    counted = same ∙ sound.counted;
    idle = λ free. absurd (ground arith);
    tasks =
        tasks_after (λ j q. TaskOk idp base log m s.holder j q) s.pc i p here
          (λ j other.
            onlooker idp base log none s.manager m s.holder s.holder j (s.pc j) (ground arith)
              (ground arith) (omega (arith, same)) (sound.tasks j));
  }

  -- The holder lets the lock go, and has completed an attempt or not.
  lets_go :
      (log : List Outcome) (s : System E) (i : ℕ) (p : Pc) (m : TokenManager) (o : Option Outcome)
      → Sound idp base log s
      → s.holder ≡ some i
      → s.manager.refresh_generation ≤ m.refresh_generation
      → m.refresh_generation ≡ base + length (noted o log)
      → Settled idp base (noted o log) m
      → TaskOk idp base (noted o log) m none i p
      → Sound idp base (noted o log) (release i p (record s { manager = m }))
  lets_go log s i p m o sound held grows count settled here = record {
    counted = count;
    idle = λ free. settled;
    tasks =
        tasks_after (λ j q. TaskOk idp base (noted o log) m none j q) s.pc i p here
          (λ j other.
            onlooker idp base log o s.manager m s.holder none j (s.pc j) (ground arith) refl grows
              (sound.tasks j));
  }

  acquire-Sound :
      (log : List Outcome) (s : System E) (i g : ℕ)
      → Sound idp base log s
      → TaskOk idp base log s.manager s.holder i (queued g)
      → Sound idp base log (acquire idp i g s.holder s)
  acquire-Sound log s i g sound (away, before, since) = acquired s.holder refl
    where
      acquired : (h : Option ℕ) → s.holder ≡ h → Sound idp base log (acquire idp i g h s)
      acquired (some j) taken = sound
      acquired none free = record {
        counted = sound.counted;
        idle = λ held. absurd (ground arith);
        tasks =
            tasks_after (λ j q. TaskOk idp base log s.manager (some i) j q) s.pc i (holding g)
              (refl, before, since, sound.idle free)
              (λ j other.
                onlooker idp base log none s.manager s.manager s.holder (some i) j (s.pc j)
                  (ground arith) other (omega arith) (sound.tasks j));
      }

  -- A call that finds the generation moved is told the newest outcome.
  shared_AnsweredBy :
      (g : ℕ) (log : List Outcome) (m : TokenManager)
      → m.refresh_generation ≡ base + length log
      → g ≤ m.refresh_generation
      → base ≤ g
      → (m.refresh_generation == g) ≡ false
      → LastIs log m.last_attempt_failure
      → AnsweredBy base g (shared_answer m.last_attempt_failure) log
  shared_AnsweredBy g [] m counted before since stale last = absurd (ground arith)
  shared_AnsweredBy g (o ∷ older) m counted before since stale last =
      inl (ground arith, rw last (told_shared o))

  -- A token that was fetched and parsed is one answer of the provider.
  fetch-Came :
      (e : E)
      → Came idp base (
          (idp.fetch_token e).0 >>= λ token.
          build_header idp token >>= λ header. ok (token, header))
  fetch-Came e = elim (Result-cases (idp.fetch_token e).0) [
    | inr (x, failed) ↦ rw failed tt
    | inl (token, good) ↦ elim (Result-cases (build_header idp token)) [
      | inr (x, bad) ↦ rw (good, bad) tt
      | inl (header, made) ↦
          rw (good, made)
            (record { token = token; request = e; answered = good; made = made; lasting = refl })
    ]
  ]

  holding-Sound :
      (log : List Outcome) (s : System E) (i g : ℕ)
      → Sound idp base log s
      → TaskOk idp base log s.manager s.holder i (holding g)
      → Sound idp base log (advance idp i (holding g) s)
  unfolding advance
  holding-Sound log s i g sound (held, before, since, settled) =
      elim (Bool-cases (s.manager.refresh_generation == g)) [
        | inl current ↦ rw current (
            under_lock log s i (fetching g)
              (record s.manager { fetch_attempts = fetch_add_one s.manager.fetch_attempts }) s.world
              sound held refl (held, ground arith, settled))
        | inr stale ↦ rw stale (
            lets_go log s i (returned g (shared_answer s.manager.last_attempt_failure)) s.manager
              none sound held (omega arith) sound.counted settled
              (refl, shared_AnsweredBy g log s.manager sound.counted before since stale settled.0))
      ]

  advance-Sound :
      (log : List Outcome) (s : System E) (i : ℕ) (p : Pc)
      → base + length log + 1 < 2 ^ 64
      → Sound idp base log s
      → TaskOk idp base log s.manager s.holder i p
      → Sound idp base (noted (completed_by p) log) (advance idp i p s)
  unfolding advance
  advance-Sound log s i (asked margin) fits sound here =
      elim (Bool-cases (leb margin (remaining (idp.now s.world) s.manager.lifetime))) [
        | inl lasts ↦ rw lasts (outside log s i still_fresh sound here)
        | inr short ↦ rw short (outside log s i started sound here)
      ]
  advance-Sound log s i started fits sound here =
      outside log s i (queued s.manager.refresh_generation) sound
        (here, omega arith, omega (arith, sound.counted))
  advance-Sound log s i (queued g) fits sound here = acquire-Sound log s i g sound here
  advance-Sound log s i (holding g) fits sound here = holding-Sound log s i g sound here
  advance-Sound log s i (fetching g) fits sound (held, current, settled) =
      let made : Result Error (TokenResponse × String) = (idp.fetch_token s.world).0 >>= λ token.
      build_header idp token >>= λ header. ok (token, header) in
      under_lock log s i (fetched g made) s.manager (idp.fetch_token s.world).1 sound held refl
        (held, current, settled, fetch-Came s.world)
  advance-Sound log s i (fetched g (err x)) fits sound (held, current, settled, came) =
      under_lock log s i (attempted g (err x)) s.manager s.world sound held refl
        (held, current, settled.1)
  advance-Sound log s i (fetched g (ok (token, header))) fits sound (held, current, settled, came) =
      under_lock log s i (stamped g header)
        (record s.manager { lifetime = issued_now (idp.now s.world) token.expires_in }) s.world
        sound held refl (held, current, came)
  advance-Sound log s i (stamped g header) fits sound (held, current, came) =
      under_lock log s i (attempted g (ok tt)) (record s.manager { header_value = header }) s.world
        sound held refl (held, current, came)
  advance-Sound log s i (attempted g r) fits sound (held, current, cached) =
      under_lock log s i (recorded g r) (record s.manager { last_attempt_failure = failure_of r })
        s.world sound held refl (held, current, refl, cached)
  advance-Sound log s i (recorded g r) fits sound (held, current, noted_failure, cached) =
      let next : fetch_add_one s.manager.refresh_generation ≡ base + length log + 1 =
        omega (arith, sound.counted, fits) in
      lets_go log s i (returned g r)
        (record s.manager { refresh_generation = fetch_add_one s.manager.refresh_generation })
        (some r) sound held (omega (arith, next, sound.counted)) (omega (arith, next))
        (noted_failure, cached) (refl, inl (omega (arith, current, sound.counted), told_itself r))
  advance-Sound log s i (returned g r) fits sound here = sound
  advance-Sound log s i still_fresh fits sound here = sound
  advance-Sound log s i dropped fits sound here = sound

  drop_call-Sound :
      (log : List Outcome) (s : System E) (i : ℕ) (p : Pc)
      → Sound idp base log s
      → TaskOk idp base log s.manager s.holder i p
      → Sound idp base log (drop_call idp i p s)
  unfolding drop_call
  drop_call-Sound log s i (queued g) sound here = outside log s i dropped sound here.0
  drop_call-Sound log s i (fetching g) sound (held, current, settled) =
      lets_go log s i dropped s.manager none sound held (omega arith) sound.counted settled refl
  drop_call-Sound log s i p sound here = sound

  pub step-Sound :
      (log : List Outcome) (s : System E) (event : Event E)
      → base + length log + 1 < 2 ^ 64
      → Sound idp base log s
      → Sound idp base (noted (completes idp event s) log) (step idp event s)
  unfolding step
  step-Sound log s (turn i) fits sound = advance-Sound log s i (s.pc i) fits sound (sound.tasks i)
  step-Sound log s (cancel i) fits sound = drop_call-Sound log s i (s.pc i) sound (sound.tasks i)
  step-Sound log s (passes f) fits sound = record {
    counted = sound.counted;
    idle = sound.idle;
    tasks = sound.tasks;
  }

  pub length-noted :
      (o : Option Outcome) (log : List Outcome)
      → (length log ≤ length (noted o log)) × (length (noted o log) ≤ length log + 1)
  length-noted none log = omega arith
  length-noted (some r) log = omega arith

  pub run-Sound :
      (events : List (Event E)) (log : List Outcome) (s : System E)
      → base + length log + length events < 2 ^ 64
      → Sound idp base log s
      → let (log', s') = run idp events (log, s) in Sound idp base log' s'
  unfolding run
  run-Sound [] log s fits sound = sound
  run-Sound (event ∷ events) log s fits sound =
      run-Sound events (noted (completes idp event s) log) (step idp event s)
        (omega (arith, fits, length-noted (completes idp event s) log))
        (step-Sound log s event (omega (arith, fits)) sound)
