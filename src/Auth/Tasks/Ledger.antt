-- ===== src/Auth/Tasks/Ledger.antt =====
-- What holds of the token manager whatever calls run side by side: who holds the lock, what the
-- generation counts, whose token is cached, and what the calls are told (`src/auth.rs`).
use Prim.Native.String.{String}
use mathlib.Core.Path.{subst}
use rociadb_core_sdk_rust.Prelude.{
  ℕ, ◌+◌, ◌≤◌, ◌≡◌, ◌⊎◌, inl, inr, Bool, false, Option, none, some, List, [], ◌∷◌, arith, ◌==◌,
  Bool-cases, length, Result, ok, err, refl,
}
use rociadb_core_sdk_rust.Error.{Error, auth, concurrent_refresh_failed}
use rociadb_core_sdk_rust.Auth.{
  TokenManager, TokenResponse, Provider, failure_of, shared_answer, build_header,
}
use rociadb_core_sdk_rust.Auth.Tasks.{
  Outcome, Pc, asked, started, queued, holding, fetching, fetched, stamped, attempted, recorded,
  returned, still_fresh, dropped, System, update, noted,
}

abbrev pub holds : Option ℕ → ℕ → Bool
holds none j = false
holds (some i) j = j == i

-- A fact about every task, after one task has moved.
pub tasks_after :
    (P : ℕ → Pc → Type 0) (pc : ℕ → Pc) (i : ℕ) (p : Pc)
    → P i p
    → ((j : ℕ) → (j == i) ≡ false → P j (pc j))
    → (j : ℕ) → P j (update pc i p j)
tasks_after P pc i p here others j = elim (Bool-cases (j == i)) [
  | inl same ↦ let is : i ≡ j = ground arith in rw same (subst (λ k. P k p) is here)
  | inr other ↦ rw other (others j other)
]

-- The newest outcome is the one on record.
abbrev pub LastIs : List Outcome → Option Error → Type 0
LastIs [] failure = Unit {0}
LastIs (o ∷ older) failure = failure ≡ failure_of o

-- An attempt's outcome as a call may be told it: a success is told as one, and a failure as it is or
-- as an authentication error that quotes it.
abbrev pub Told : Outcome → Outcome → Type 0
Told (ok u) r = r ≡ ok tt
Told (err x) r = (r ≡ err x) ⊎ (r ≡ err (auth (concurrent_refresh_failed x) none))

pub told_itself : (o : Outcome) → Told o o
told_itself (ok u) = refl
told_itself (err x) = inl refl

pub told_shared : (o : Outcome) → Told o (shared_answer (failure_of o))
told_shared (ok u) = refl
told_shared (err x) = inr refl

-- What a call returns is the outcome of an attempt that was completed at the generation `g` or later,
-- as it may be told. The log begins at the generation `base`.
abbrev pub AnsweredBy : ℕ → ℕ → Outcome → List Outcome → Type 0
AnsweredBy base g r [] = ⊥
AnsweredBy base g r (o ∷ older) =
    ((g ≤ base + length older) × (Told o r)) ⊎ AnsweredBy base g r older

module _ {E : Type 0} (idp : Provider E) (base : ℕ) where
  -- A header and a lifetime that come from one answer of the identity provider.
  pub record Belongs (header : String) (lasts : ℕ) : Type 0 where
    pub token : TokenResponse
    pub request : E
    pub answered : (idp.fetch_token request).0 ≡ ok token
    pub made : build_header idp token ≡ ok header
    pub lasting : token.expires_in ≡ lasts

  abbrev pub Cached : TokenManager → Type 0
  Cached m = Belongs m.header_value m.lifetime.lasts

  abbrev pub Settled : List Outcome → TokenManager → Type 0
  Settled log m = LastIs log m.last_attempt_failure × Cached m

  abbrev pub Came : Result Error (TokenResponse × String) → Type 0
  Came (err x) = Unit {0}
  Came (ok (token, header)) = Belongs header token.expires_in

  -- What is known of a task by where it stands.
  abbrev pub TaskOk : List Outcome → TokenManager → Option ℕ → ℕ → Pc → Type 0
  TaskOk log m h j (asked margin) = holds h j ≡ false
  TaskOk log m h j started = holds h j ≡ false
  TaskOk log m h j (queued g) = (holds h j ≡ false) × (g ≤ m.refresh_generation) × (base ≤ g)
  TaskOk log m h j (holding g) =
      (h ≡ some j) × (g ≤ m.refresh_generation) × (base ≤ g) × Settled log m
  TaskOk log m h j (fetching g) = (h ≡ some j) × (g ≡ m.refresh_generation) × Settled log m
  TaskOk log m h j (fetched g made) =
      (h ≡ some j) × (g ≡ m.refresh_generation) × Settled log m × Came made
  TaskOk log m h j (stamped g header) =
      (h ≡ some j) × (g ≡ m.refresh_generation) × Belongs header m.lifetime.lasts
  TaskOk log m h j (attempted g r) = (h ≡ some j) × (g ≡ m.refresh_generation) × Cached m
  TaskOk log m h j (recorded g r) =
      (h ≡ some j) × (g ≡ m.refresh_generation) × (m.last_attempt_failure ≡ failure_of r) × Cached m
  TaskOk log m h j (returned g r) = (holds h j ≡ false) × AnsweredBy base g r log
  TaskOk log m h j still_fresh = holds h j ≡ false
  TaskOk log m h j dropped = holds h j ≡ false

  pub record Sound (log : List Outcome) (s : System E) : Type 0 where
    pub counted : s.manager.refresh_generation ≡ base + length log
    pub idle : s.holder ≡ none → Settled log s.manager
    pub tasks : (j : ℕ) → TaskOk log s.manager s.holder j (s.pc j)

  -- A task that does not hold the lock, while another one works under it.
  pub onlooker :
      (log : List Outcome) (o : Option Outcome) (m m' : TokenManager) (h h' : Option ℕ) (j : ℕ)
      (p : Pc)
      → holds h j ≡ false
      → holds h' j ≡ false
      → m.refresh_generation ≤ m'.refresh_generation
      → TaskOk log m h j p
      → TaskOk (noted o log) m' h' j p
  onlooker log o m m' h h' j (asked margin) away away' grows t = away'
  onlooker log o m m' h h' j started away away' grows t = away'
  onlooker log o m m' h h' j (queued g) away away' grows t = (away', omega (arith, t.1, grows), t.2)
  onlooker log o m m' h h' j (holding g) away away' grows t = absurd (ground arith)
  onlooker log o m m' h h' j (fetching g) away away' grows t = absurd (ground arith)
  onlooker log o m m' h h' j (fetched g made) away away' grows t = absurd (ground arith)
  onlooker log o m m' h h' j (stamped g header) away away' grows t = absurd (ground arith)
  onlooker log o m m' h h' j (attempted g r) away away' grows t = absurd (ground arith)
  onlooker log o m m' h h' j (recorded g r) away away' grows t = absurd (ground arith)
  onlooker log none m m' h h' j (returned g r) away away' grows t = (away', t.1)
  onlooker log (some o) m m' h h' j (returned g r) away away' grows t = (away', inr t.1)
  onlooker log o m m' h h' j still_fresh away away' grows t = away'
  onlooker log o m m' h h' j dropped away away' grows t = away'
