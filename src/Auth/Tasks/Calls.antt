-- ===== src/Auth/Tasks/Calls.antt =====
-- Calls of a new token manager of `src/auth.rs` that run side by side: the lock, the cache and the
-- answers.
use mathlib.Core.Path.{subst}
use rociadb_core_sdk_rust.Prelude.{
  ℕ, ◌^◌, ◌<◌, ◌≡◌, refl, sym, ap, ◌∙◌, inl, inr, false, Option, none, some, List, [], arith,
  Option-cases, length, Result, Result-cases, ok, err,
}
use rociadb_core_sdk_rust.Error.{Error}
use rociadb_core_sdk_rust.Duration.{Duration}
use rociadb_core_sdk_rust.Auth.{TokenManager, Provider, new, build_header, issued_now}
use rociadb_core_sdk_rust.Auth.Tasks.{
  Outcome, Pc, asked, started, queued, holding, fetching, fetched, stamped, attempted, recorded,
  returned, still_fresh, dropped, System, Event, run,
}
use rociadb_core_sdk_rust.Auth.Tasks.Ledger.{Cached, TaskOk, Sound}
use rociadb_core_sdk_rust.Auth.Tasks.Steps.{run-Sound}

-- A call of `refresh_now`, or of `ensure_fresh` with a margin, that has not begun.
abbrev pub entry : Option Duration → Pc
entry none = started
entry (some margin) = asked margin

abbrev pub launch : {E : Type 0} → TokenManager → E → (ℕ → Option Duration) → System E
launch m e calls = record { manager = m; world = e; holder = none; pc = λ j. entry (calls j) }

-- The task is inside the critical section of `refresh_now`.
abbrev pub InLock : Pc → Type 0
InLock (holding g) = Unit {0}
InLock (fetching g) = Unit {0}
InLock (fetched g made) = Unit {0}
InLock (stamped g header) = Unit {0}
InLock (attempted g r) = Unit {0}
InLock (recorded g r) = Unit {0}
InLock p = ⊥

-- The task is between its two writes to the cache.
abbrev pub IsStamped : Pc → Type 0
IsStamped (stamped g header) = Unit {0}
IsStamped p = ⊥

module _ {E : Type 0} (idp : Provider E) where
  entry-TaskOk :
      (m : TokenManager) (j : ℕ) (call : Option Duration) → TaskOk idp 0 [] m none j (entry call)
  entry-TaskOk m j none = refl
  entry-TaskOk m j (some margin) = refl

  -- A new manager has made no attempt, and caches the header and the lifetime of its first token.
  new-Cached :
      (e : E) (m : TokenManager)
      → (new idp e).0 ≡ ok m
      → (m.refresh_generation ≡ 0) × Cached idp 0 m
  unfolding new
  new-Cached e m made = elim (Result-cases (idp.fetch_token e).0) [
    | inr (x, failed) ↦
        let bad : err x ≡ ok m = rw (← made, new, failed) refl in absurd (ground arith)
    | inl (token, good) ↦ elim (Result-cases (build_header idp token)) [
      | inr (x, wrong) ↦
          let bad : err x ≡ ok m = rw (← made, new, good, wrong) refl in absurd (ground arith)
      | inl (header, parsed) ↦
          let first : TokenManager = record {
            header_value = header;
            lifetime = issued_now (idp.now (idp.fetch_token e).1) token.expires_in;
            fetch_attempts = 0;
            refresh_generation = 0;
            last_attempt_failure = none;
            refresh_notify = false;
          } in
          let is : ◌≡◌ {A = Result Error TokenManager} (ok first) (ok m) =
            rw (← made, new, good, parsed) refl in
          let same : first ≡ m = cc is in
          (
            ap (λ k. k.refresh_generation) (sym same),
            record {
              token = token;
              request = e;
              answered = good;
              made = parsed ∙ ap (λ k. ok k.header_value) same;
              lasting = ap (λ k. k.lifetime.lasts) same;
            },
          )
    ]
  ]

  InLock-holder :
      (log : List Outcome) (m : TokenManager) (h : Option ℕ) (j : ℕ) (p : Pc)
      → TaskOk idp 0 log m h j p
      → InLock p
      → h ≡ some j
  InLock-holder log m h j (asked margin) t inside = absurd inside
  InLock-holder log m h j started t inside = absurd inside
  InLock-holder log m h j (queued g) t inside = absurd inside
  InLock-holder log m h j (holding g) t inside = t.0
  InLock-holder log m h j (fetching g) t inside = t.0
  InLock-holder log m h j (fetched g made) t inside = t.0
  InLock-holder log m h j (stamped g header) t inside = t.0
  InLock-holder log m h j (attempted g r) t inside = t.0
  InLock-holder log m h j (recorded g r) t inside = t.0
  InLock-holder log m h j (returned g r) t inside = absurd inside
  InLock-holder log m h j still_fresh t inside = absurd inside
  InLock-holder log m h j dropped t inside = absurd inside

  -- A holder that is not between its two writes leaves the cache whole.
  TaskOk-Cached :
      (log : List Outcome) (m : TokenManager) (j : ℕ) (p : Pc)
      → TaskOk idp 0 log m (some j) j p
      → (IsStamped p → ⊥)
      → Cached idp 0 m
  TaskOk-Cached log m j (asked margin) t calm = absurd (ground arith)
  TaskOk-Cached log m j started t calm = absurd (ground arith)
  TaskOk-Cached log m j (queued g) t calm = absurd (ground (arith, t.0))
  TaskOk-Cached log m j (holding g) t calm = t.3.1
  TaskOk-Cached log m j (fetching g) t calm = t.2.1
  TaskOk-Cached log m j (fetched g made) t calm = t.2.1
  TaskOk-Cached log m j (stamped g header) t calm = absurd (calm tt)
  TaskOk-Cached log m j (attempted g r) t calm = t.2
  TaskOk-Cached log m j (recorded g r) t calm = t.3
  TaskOk-Cached log m j (returned g r) t calm = absurd (ground (arith, t.0))
  TaskOk-Cached log m j still_fresh t calm = absurd (ground arith)
  TaskOk-Cached log m j dropped t calm = absurd (ground arith)

  module _ (e : E) (m : TokenManager) (calls : ℕ → Option Duration)
      (made : (new idp e).0 ≡ ok m) where
    pub launch-Sound : (w : E) → Sound idp 0 [] (launch m w calls)
    launch-Sound w =
        let (zero_yet, cached) = new-Cached e m made in
        record {
          counted = zero_yet;
          idle = λ free. (tt, cached);
          tasks = λ j. entry-TaskOk m j (calls j);
        }

    -- Whatever calls of a new token manager run side by side, are dropped or are still under way: at
    -- most one call is in the critical section; the generation is the number of attempts that were
    -- completed; and the cached header and the cached lifetime come from one answer of the identity
    -- provider, unless a call is between its two writes. There are fewer than 2 ^ 64 events.
    pub calls_are_orderly :
        (w : E) (events : List (Event E))
        → length events < 2 ^ 64
        → let (log, s) = run idp events ([], launch m w calls) in
          ((i j : ℕ) → InLock (s.pc i) → InLock (s.pc j) → i ≡ j)
          × (s.manager.refresh_generation ≡ length log)
          × (((j : ℕ) → IsStamped (s.pc j) → ⊥) → Cached idp 0 s.manager)
    calls_are_orderly w events fits =
        let (log, s) = run idp events ([], launch m w calls) in
        let sound : Sound idp 0 log s =
          run-Sound idp 0 events [] (launch m w calls) (omega arith) (launch-Sound w) in
        (
          λ i j here there.
              let hi : s.holder ≡ some i =
                InLock-holder log s.manager s.holder i (s.pc i) (sound.tasks i) here in
              let hj : s.holder ≡ some j =
                InLock-holder log s.manager s.holder j (s.pc j) (sound.tasks j) there in
              cc (hi, hj),
          omega (arith, sound.counted),
          λ calm. elim (Option-cases s.holder) [
            | inl free ↦ (sound.idle free).1
            | inr (j, held) ↦
                TaskOk-Cached log s.manager j (s.pc j)
                  (subst (λ h. TaskOk idp 0 log s.manager h j (s.pc j)) held (sound.tasks j))
                  (calm j)
          ],
        )
