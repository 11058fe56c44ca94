-- ===== src/Auth/Tasks/Frames.antt =====
-- One step moves one task of the concurrent calls of `src/auth.rs`, and a call keeps the generation
-- that it observed.
use Prim.Native.String.{String}
use rociadb_core_sdk_rust.Error.{Error}
use mathlib.Core.Path.{subst}
use rociadb_core_sdk_rust.Prelude.{
  ℕ, ◌≡◌, refl, sym, inl, inr, true, false, Result, ◌>>=◌, leb, arith, ◌==◌, Bool-cases,
  Option-cases, ok, err,
}
use rociadb_core_sdk_rust.Auth.{TokenResponse, Provider, remaining, build_header, shared_answer}
use rociadb_core_sdk_rust.Auth.Tasks.{
  Pc, asked, started, queued, holding, fetching, fetched, stamped, attempted, recorded, returned,
  still_fresh, dropped, System, update, Event, turn, cancel, passes, acquire, advance, drop_call,
  step,
}

module _ {E : Type 0} (idp : Provider E) where
  -- A step of one task leaves the others where they are.
  pub advance-others :
      (i j : ℕ) (p : Pc) (s : System E) → (j == i) ≡ false → (advance idp i p s).pc j ≡ s.pc j
  unfolding advance
  advance-others i j (asked margin) s other =
      elim (Bool-cases (leb margin (remaining (idp.now s.world) s.manager.lifetime))) [
        | inl lasts ↦ rw (lasts, other) refl
        | inr short ↦ rw (short, other) refl
      ]
  advance-others i j started s other = rw other refl
  advance-others i j (queued g) s other = elim (Option-cases s.holder) [
    | inl free ↦ rw (free, acquire) (rw other refl)
    | inr (k, held) ↦ rw (held, acquire) refl
  ]
  advance-others i j (holding g) s other = elim (Bool-cases (s.manager.refresh_generation == g)) [
    | inl current ↦ rw (current, other) refl
    | inr stale ↦ rw (stale, other) refl
  ]
  advance-others i j (fetching g) s other = rw other refl
  advance-others i j (fetched g (err x)) s other = rw other refl
  advance-others i j (fetched g (ok (token, header))) s other = rw other refl
  advance-others i j (stamped g header) s other = rw other refl
  advance-others i j (attempted g r) s other = rw other refl
  advance-others i j (recorded g r) s other = rw other refl
  advance-others i j (returned g r) s other = refl
  advance-others i j still_fresh s other = refl
  advance-others i j dropped s other = refl

  pub drop_call-others :
      (i j : ℕ) (p : Pc) (s : System E) → (j == i) ≡ false → (drop_call idp i p s).pc j ≡ s.pc j
  unfolding drop_call
  drop_call-others i j (queued g) s other = rw other refl
  drop_call-others i j (fetching g) s other = rw other refl
  drop_call-others i j p s other = refl

-- The generation that a call has observed, if it has begun, is one of `P`; `N` is what is known of a
-- call that has not begun.
abbrev pub Observing : (ℕ → Type 0) → Type 0 → Pc → Type 0
Observing P N (asked margin) = N
Observing P N started = N
Observing P N (queued g) = P g
Observing P N (holding g) = P g
Observing P N (fetching g) = P g
Observing P N (fetched g made) = P g
Observing P N (stamped g header) = P g
Observing P N (attempted g r) = P g
Observing P N (recorded g r) = P g
Observing P N (returned g r) = P g
Observing P N still_fresh = Unit {0}
Observing P N dropped = Unit {0}

module _ {E : Type 0} (idp : Provider E) (P : ℕ → Type 0) (N : Type 0) where
  moved : (s : System E) (i : ℕ) (p : Pc) → Observing P N p → Observing P N (update s.pc i p i)
  moved s i p now = let self : (i == i) ≡ true = ground arith in rw self now

  -- The task's own step.
  advance-Observing :
      (i : ℕ) (p : Pc) (s : System E)
      → s.pc i ≡ p
      → (N → P s.manager.refresh_generation)
      → Observing P N p
      → Observing P N ((advance idp i p s).pc i)
  unfolding advance
  advance-Observing i (asked margin) s at begin now =
      elim (Bool-cases (leb margin (remaining (idp.now s.world) s.manager.lifetime))) [
        | inl lasts ↦ rw lasts (moved s i still_fresh tt)
        | inr short ↦ rw short (moved s i started now)
      ]
  advance-Observing i started s at begin now =
      moved s i (queued s.manager.refresh_generation) (begin now)
  advance-Observing i (queued g) s at begin now = elim (Option-cases s.holder) [
    | inl free ↦ rw (free, acquire) (moved s i (holding g) now)
    | inr (j, held) ↦ rw (held, acquire, at) now
  ]
  advance-Observing i (holding g) s at begin now =
      elim (Bool-cases (s.manager.refresh_generation == g)) [
        | inl current ↦ rw current (moved s i (fetching g) now)
        | inr stale ↦
            rw stale (moved s i (returned g (shared_answer s.manager.last_attempt_failure)) now)
      ]
  advance-Observing i (fetching g) s at begin now =
      let made : Result Error (TokenResponse × String) = (idp.fetch_token s.world).0 >>= λ token.
      build_header idp token >>= λ header. ok (token, header) in
      moved s i (fetched g made) now
  advance-Observing i (fetched g (err x)) s at begin now = moved s i (attempted g (err x)) now
  advance-Observing i (fetched g (ok (token, header))) s at begin now =
      moved s i (stamped g header) now
  advance-Observing i (stamped g header) s at begin now = moved s i (attempted g (ok tt)) now
  advance-Observing i (attempted g r) s at begin now = moved s i (recorded g r) now
  advance-Observing i (recorded g r) s at begin now = moved s i (returned g r) now
  advance-Observing i (returned g r) s at begin now = rw at now
  advance-Observing i still_fresh s at begin now = rw at tt
  advance-Observing i dropped s at begin now = rw at tt

  drop_call-Observing :
      (i : ℕ) (p : Pc) (s : System E)
      → s.pc i ≡ p
      → Observing P N p
      → Observing P N ((drop_call idp i p s).pc i)
  unfolding drop_call
  drop_call-Observing i (queued g) s at now = moved s i dropped tt
  drop_call-Observing i (fetching g) s at now = moved s i dropped tt
  drop_call-Observing i p s at now = rw at now

  pub step-Observing :
      (i : ℕ) (event : Event E) (s : System E)
      → (N → P s.manager.refresh_generation)
      → Observing P N (s.pc i)
      → Observing P N ((step idp event s).pc i)
  unfolding step
  step-Observing i (turn j) s begin now = elim (Bool-cases (i == j)) [
    | inl same ↦
        let is : i ≡ j = ground arith in
        subst (λ l. Observing P N ((advance idp j (s.pc j) s).pc l)) (sym is)
          (advance-Observing j (s.pc j) s refl begin (subst (λ l. Observing P N (s.pc l)) is now))
    | inr other ↦ rw (advance-others idp j i (s.pc j) s other) now
  ]
  step-Observing i (cancel j) s begin now = elim (Bool-cases (i == j)) [
    | inl same ↦
        let is : i ≡ j = ground arith in
        subst (λ l. Observing P N ((drop_call idp j (s.pc j) s).pc l)) (sym is)
          (drop_call-Observing j (s.pc j) s refl (subst (λ l. Observing P N (s.pc l)) is now))
    | inr other ↦ rw (drop_call-others idp j i (s.pc j) s other) now
  ]
  step-Observing i (passes f) s begin now = now
