-- ===== src/Auth/Refresh.antt =====
-- The single-flight refresh of `TokenManager` (`refresh_now` of `src/auth.rs`).
use Prim.Native.String.{String}
use rociadb_core_sdk_rust.Prelude.{
  ℕ, zero, suc, ◌^◌, ◌<◌, ◌≡◌, refl, sym, ap, ◌∙◌, inl, inr, true, false, List, [], ◌∷◌, arith,
  ◌==◌, Bool-cases, Result, ◌>>=◌, ok, err,
}
use rociadb_core_sdk_rust.Error.{Error}
use rociadb_core_sdk_rust.Auth.{
  TokenManager, install, TokenResponse, build_header, failure_of, shared_answer, refresh_attempt,
  Provider, fetch_add_one, fetch_and_install, refresh_locked, refresh_now,
}

abbrev pub repeated : ℕ → Result Error (Unit {0}) → List (Result Error (Unit {0}))
repeated zero r = []
repeated (suc k) r = r ∷ repeated k r

module _ {E : Type 0} (idp : Provider E) where
  record Installed (m : TokenManager) (r : Result Error (Unit {0})) (m' : TokenManager)
      : Type 0 where
    fetches_same : m'.fetch_attempts ≡ m.fetch_attempts
    generation_same : m'.refresh_generation ≡ m.refresh_generation
    kept : (x : Error) → r ≡ err x → (m'.header_value ≡ m.header_value) × (m'.lifetime ≡ m.lifetime)

  -- What an attempt leaves in the cache and in the counters.
  pub record Attempted (m : TokenManager) (r : Result Error (Unit {0})) (m' : TokenManager)
      : Type 0 where
    pub one_fetch : m'.fetch_attempts ≡ fetch_add_one m.fetch_attempts
    pub one_more : m'.refresh_generation ≡ fetch_add_one m.refresh_generation
    pub recorded : m'.last_attempt_failure ≡ failure_of r
    pub kept :
        (x : Error) → r ≡ err x → (m'.header_value ≡ m.header_value) × (m'.lifetime ≡ m.lifetime)

  install-Installed :
      (made : Result Error (TokenResponse × String)) (m : TokenManager) (e : E)
      → Installed m (install idp made (m, e)).0 (install idp made (m, e)).1.0
  install-Installed (ok made) m e = record {
    fetches_same = refl;
    generation_same = refl;
    kept = λ x same. cc;
  }
  install-Installed (err y) m e = record {
    fetches_same = refl;
    generation_same = refl;
    kept = λ x same. (refl, refl);
  }

  pub refresh_attempt-Attempted :
      (m : TokenManager) (e : E)
      → Attempted m (refresh_attempt idp (m, e)).0 (refresh_attempt idp (m, e)).1.0
  unfolding refresh_attempt fetch_and_install
  refresh_attempt-Attempted m e =
      let (answer, e') = idp.fetch_token e in
      let counted : TokenManager = record m { fetch_attempts = fetch_add_one m.fetch_attempts } in
      let made : Result Error (TokenResponse × String) =
        answer >>= λ token. build_header idp token >>= λ header. ok (token, header) in
      let i : Installed counted (install idp made (counted, e')).0
          (install idp made (counted, e')).1.0 =
        install-Installed made counted e' in
      record {
        one_fetch = i.fetches_same;
        one_more = ap fetch_add_one i.generation_same;
        recorded = refl;
        kept = i.kept;
      }

  pub refresh_locked_current :
      (m : TokenManager) (e : E) (observed : ℕ)
      → (m.refresh_generation == observed) ≡ true
      → refresh_locked idp observed (m, e) ≡ refresh_attempt idp (m, e)
  unfolding refresh_locked
  refresh_locked_current m e observed current = rw (current, refresh_locked) refl

  pub refresh_locked_stale :
      (m : TokenManager) (e : E) (observed : ℕ)
      → (m.refresh_generation == observed) ≡ false
      → refresh_locked idp observed (m, e) ≡ (shared_answer m.last_attempt_failure, (m, e))
  unfolding refresh_locked
  refresh_locked_stale m e observed stale = rw (stale, refresh_locked) refl

  -- The callers that wait for the lock with the same observation, one after the other.
  unfoldable pub followers :
      ℕ → ℕ → TokenManager × E → List (Result Error (Unit {0})) × (TokenManager × E)
  followers observed zero s = ([], s)
  followers observed (suc k) s =
      let (r, s') = refresh_locked idp observed s in
      let (rs, s'') = followers observed k s' in (r ∷ rs, s'')

  followers_share :
      (m : TokenManager) (e : E) (observed k : ℕ)
      → (m.refresh_generation == observed) ≡ false
      → followers observed k (m, e) ≡ (repeated k (shared_answer m.last_attempt_failure), (m, e))
  unfolding followers
  followers_share m e observed zero stale = refl
  followers_share m e observed (suc k) stale =
      rw (refresh_locked_stale m e observed stale, followers)
        (rw (followers_share m e observed k stale) refl)

  -- Of a burst of callers that asked for a refresh at the same generation, the first to get the
  -- lock makes one request to the identity provider. The others make none and change nothing; each
  -- is told success if that request succeeded, and that it failed if it failed. The generation must
  -- be a `u64`.
  pub refresh_burst :
      (m : TokenManager) (e : E) (k : ℕ)
      → m.refresh_generation < 2 ^ 64
      → let first = refresh_locked idp m.refresh_generation (m, e) in
        (followers m.refresh_generation k first.1
          ≡ (repeated k (shared_answer (failure_of first.0)), first.1))
        × (first.1.0.fetch_attempts ≡ fetch_add_one m.fetch_attempts)
  refresh_burst m e k fits = rw (refresh_locked_current m e m.refresh_generation (ground arith)) (
      let a : Attempted m (refresh_attempt idp (m, e)).0 (refresh_attempt idp (m, e)).1.0 =
        refresh_attempt-Attempted m e in
      let (m', e') = (refresh_attempt idp (m, e)).1 in
      let stale : (m'.refresh_generation == m.refresh_generation) ≡ false =
        ground (arith, a.one_more) in
      (rw (← a.recorded) (followers_share m' e' m.refresh_generation k stale), a.one_fetch))

  -- A refresh that fails leaves the cached header and its lifetime as the callers before it left
  -- them, and so does one that finds that another caller has already made the attempt.
  pub refresh_now_keeps :
      (wait : TokenManager × E → TokenManager × E) (s : TokenManager × E) (x : Error)
      → (refresh_now idp wait s).0 ≡ err x
      → ((refresh_now idp wait s).1.0.header_value ≡ (wait s).0.header_value)
        × ((refresh_now idp wait s).1.0.lifetime ≡ (wait s).0.lifetime)
  unfolding refresh_now
  refresh_now_keeps wait s x failed =
      elim (Bool-cases ((wait s).0.refresh_generation == s.0.refresh_generation)) [
        | inr stale ↦
            rw (refresh_locked_stale (wait s).0 (wait s).1 s.0.refresh_generation stale)
              (refl, refl)
        | inl current ↦
            let run : refresh_locked idp s.0.refresh_generation (wait s)
                ≡ refresh_attempt idp (wait s) =
              refresh_locked_current (wait s).0 (wait s).1 s.0.refresh_generation current in
            let a : Attempted (wait s).0 (refresh_attempt idp (wait s)).0
                (refresh_attempt idp (wait s)).1.0 =
              refresh_attempt-Attempted (wait s).0 (wait s).1 in
            rw run (a.kept x (ap (λ p. p.0) (sym run) ∙ failed))
      ]
