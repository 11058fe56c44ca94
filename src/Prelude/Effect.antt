-- ===== src/Prelude/Effect.antt =====
-- The operators of a `do` block over actions that can fail: `.await?` after `.await?`.
use mathlib.Core.Path.{◌≡◌}
use mathlib.Core.Logic.{inl, inr}
use rociadb_core_sdk_rust.Prelude.Outcome.{Result, Result-cases, ok, err, Action}

infixl 5 ◌>>=◌ ◌>>◌
abbrev pub ◌>>=◌ {ℓ} :
    {W E A B : Type ℓ} → Action W (Result E A) → (A → Action W (Result E B)) → Action W (Result E B)
◌>>=◌ m f w = let (r, w') = m w in elim r [ ok a ↦ f a w' | err e ↦ (err e, w') ]

abbrev pub ◌>>◌ {ℓ} :
    {W E A B : Type ℓ} → Action W (Result E A) → Action W (Result E B) → Action W (Result E B)
m >> k = m >>= λ _. k

-- `Ok(a)`.
abbrev pub pure {ℓ} : {W E A : Type ℓ} → A → Action W (Result E A)
pure a w = (ok a, w)

-- `r?` of a result that no call made.
abbrev pub lift {ℓ} : {W E A : Type ℓ} → Result E A → Action W (Result E A)
lift r w = (r, w)

-- An action that cannot fail.
abbrev pub always {ℓ} : {W E A : Type ℓ} → Action W A → Action W (Result E A)
always m w = let (a, w') = m w in (ok a, w')

-- A chain of calls, by its next call: it fails, or the rest goes on.
pub bind_cases :
    {W X A B : Type 0} (P : Result X B × W → Type 0) (m : Action W (Result X A))
    (f : A → Action W (Result X B)) (w : W)
    → ((x : X) → (m w).0 ≡ err x → P (err x, (m w).1))
    → ((a : A) → (m w).0 ≡ ok a → P (f a (m w).1))
    → P ((m >>= f) w)
bind_cases P m f w stops goes = elim (Result-cases (m w).0) [
  | inl (a, good) ↦ rw (good, ◌>>=◌) (goes a good)
  | inr (x, bad) ↦ rw (bad, ◌>>=◌) (stops x bad)
]
