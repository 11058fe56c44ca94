-- ===== src/Auth/Tasks/Turns.antt =====
-- Turns that one call of the token manager of `src/auth.rs` takes in a row bring it to its end, if
-- nobody else holds the refresh lock.
use Prim.Native.String.{String}
use rociadb_core_sdk_rust.Prelude.{
  ℕ, zero, suc, ◌+◌, ◌-◌, ◌^◌, ◌≤◌, ◌<◌, ◌≡◌, refl, ◌⊎◌, inl, inr, true, Option, none, some, List,
  [], ◌∷◌, leb, arith, ◌==◌, Bool-cases, length, Result, ◌>>=◌, ok, err,
}
use rociadb_core_sdk_rust.Error.{Error}
use rociadb_core_sdk_rust.Auth.{TokenResponse, Provider, remaining, build_header, shared_answer}
use rociadb_core_sdk_rust.Auth.Tasks.{
  Outcome, Pc, asked, started, queued, holding, fetching, fetched, stamped, attempted, recorded,
  returned, still_fresh, dropped, System, update, Event, turn, completed_by, noted, acquire,
  advance, step, run,
}
use rociadb_core_sdk_rust.Auth.Tasks.Ledger.{TaskOk, Sound}
use rociadb_core_sdk_rust.Auth.Tasks.Steps.{step-Sound, length-noted}

-- The call has returned, or was dropped.
abbrev pub IsOver : Pc → Type 0
IsOver (returned g r) = Unit {0}
IsOver still_fresh = Unit {0}
IsOver dropped = Unit {0}
IsOver p = ⊥

-- The most steps that a call still takes, if it need not wait for the lock.
abbrev pub steps_left : Pc → ℕ
steps_left (asked margin) = 9
steps_left started = 8
steps_left (queued g) = 7
steps_left (holding g) = 6
steps_left (fetching g) = 5
steps_left (fetched g made) = 4
steps_left (stamped g header) = 3
steps_left (attempted g r) = 2
steps_left (recorded g r) = 1
steps_left p = 0

pub no_steps-IsOver : (p : Pc) → steps_left p ≤ 0 → IsOver p
no_steps-IsOver (returned g r) none_left = tt
no_steps-IsOver still_fresh none_left = tt
no_steps-IsOver dropped none_left = tt
no_steps-IsOver p none_left = absurd (omega arith)

pub steps_left-le : (p : Pc) → steps_left p ≤ 9
steps_left-le (asked margin) = omega arith
steps_left-le p = omega arith

-- Nobody else holds the lock.
abbrev pub IsClear : ℕ → Option ℕ → Type 0
IsClear i h = (h ≡ none) ⊎ (h ≡ some i)

abbrev pub turns : {E : Type 0} → ℕ → ℕ → List (Event E)
turns i zero = []
turns i (suc n) = turn i ∷ turns i n

module _ {E : Type 0} (idp : Provider E) where
  abbrev Closer : ℕ → Pc → System E → Type 0
  Closer i p s = (steps_left (s.pc i) ≤ steps_left p - 1) × IsClear i s.holder

  -- A task that has moved to a place with fewer steps left.
  moved-Closer :
      (i : ℕ) (p q : Pc) (pc : ℕ → Pc) (h : Option ℕ)
      → steps_left q ≤ steps_left p - 1
      → IsClear i h
      → (steps_left (update pc i q i) ≤ steps_left p - 1) × IsClear i h
  moved-Closer i p q pc h fewer clear =
      let self : (i == i) ≡ true = ground arith in rw self (fewer, clear)

  advance-Closer :
      (log : List Outcome) (s : System E) (i : ℕ) (p : Pc)
      → s.pc i ≡ p
      → TaskOk idp 0 log s.manager s.holder i p
      → IsClear i s.holder
      → Closer i p (advance idp i p s)
  unfolding advance
  advance-Closer log s i (asked margin) at here clear =
      elim (Bool-cases (leb margin (remaining (idp.now s.world) s.manager.lifetime))) [
        | inl lasts ↦
            rw lasts (moved-Closer i (asked margin) still_fresh s.pc s.holder (omega arith) clear)
        | inr short ↦
            rw short (moved-Closer i (asked margin) started s.pc s.holder (omega arith) clear)
      ]
  advance-Closer log s i started at here clear =
      moved-Closer i started (queued s.manager.refresh_generation) s.pc s.holder (omega arith) clear
  advance-Closer log s i (queued g) at (away, seen, since) clear = acquired s.holder refl
    where
      acquired : (h : Option ℕ) → s.holder ≡ h → Closer i (queued g) (acquire idp i g h s)
      acquired none free =
          moved-Closer i (queued g) (holding g) s.pc (some i) (omega arith) (inr refl)
      acquired (some j) taken = elim clear [
        | inl free ↦ absurd (ground arith)
        | inr own ↦ absurd (ground arith)
      ]
  advance-Closer log s i (holding g) at here clear =
      elim (Bool-cases (s.manager.refresh_generation == g)) [
        | inl current ↦
            rw current (moved-Closer i (holding g) (fetching g) s.pc s.holder (omega arith) clear)
        | inr stale ↦ rw stale (
            moved-Closer i (holding g) (returned g (shared_answer s.manager.last_attempt_failure))
              s.pc none (omega arith) (inl refl))
      ]
  advance-Closer log s i (fetching g) at here clear =
      let made : Result Error (TokenResponse × String) = (idp.fetch_token s.world).0 >>= λ token.
      build_header idp token >>= λ header. ok (token, header) in
      moved-Closer i (fetching g) (fetched g made) s.pc s.holder (omega arith) clear
  advance-Closer log s i (fetched g (err x)) at here clear =
      moved-Closer i (fetched g (err x)) (attempted g (err x)) s.pc s.holder (omega arith) clear
  advance-Closer log s i (fetched g (ok (token, header))) at here clear =
      moved-Closer i (fetched g (ok (token, header))) (stamped g header) s.pc s.holder (omega arith)
        clear
  advance-Closer log s i (stamped g header) at here clear =
      moved-Closer i (stamped g header) (attempted g (ok tt)) s.pc s.holder (omega arith) clear
  advance-Closer log s i (attempted g r) at here clear =
      moved-Closer i (attempted g r) (recorded g r) s.pc s.holder (omega arith) clear
  advance-Closer log s i (recorded g r) at here clear =
      moved-Closer i (recorded g r) (returned g r) s.pc none (omega arith) (inl refl)
  advance-Closer log s i (returned g r) at here clear = (rw at (omega arith), clear)
  advance-Closer log s i still_fresh at here clear = (rw at (omega arith), clear)
  advance-Closer log s i dropped at here clear = (rw at (omega arith), clear)

  pub turns-Closer :
      (n : ℕ) (i : ℕ) (log : List Outcome) (s : System E)
      → length log + n < 2 ^ 64
      → Sound idp 0 log s
      → IsClear i s.holder
      → steps_left (s.pc i) ≤ n
      → let s' = (run idp (turns i n) (log, s)).1 in
        (steps_left (s'.pc i) ≤ 0) × IsClear i s'.holder
  unfolding run step
  turns-Closer zero i log s fits sound clear few = (few, clear)
  turns-Closer (suc n) i log s fits sound clear few =
      let (closer, clear') = advance-Closer log s i (s.pc i) refl (sound.tasks i) clear in
      turns-Closer n i (noted (completed_by (s.pc i)) log) (advance idp i (s.pc i) s)
        (omega (arith, fits, length-noted idp 0 (completed_by (s.pc i)) log))
        (step-Sound idp 0 log s (turn i) (omega (arith, fits)) sound) clear'
        (omega (arith, closer, few))
