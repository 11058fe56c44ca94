-- ===== src/Prelude/Outcome.antt =====
-- `std::result::Result` with the operators of a `do` block, and the state-passing actions of the
-- asynchronous code.
use mathlib.Core.Path.{◌≡◌, refl}
use mathlib.Core.Logic.{◌⊎◌, inl, inr}
use mathlib.Core.Option.{Option, none, some}
use mathlib.Core.List.{List, [], ◌∷◌, map}

pub data Result {ℓ} (E A : Type ℓ) : Type ℓ where
  ok : A → Result E A
  err : E → Result E A

abbrev pub map_err {ℓ} : {A E F : Type ℓ} → (E → F) → Result E A → Result F A
map_err f (ok a) = ok a
map_err f (err e) = err (f e)

infixl 5 ◌>>=◌ ◌>>◌
abbrev pub ◌>>=◌ {ℓ} : {E A B : Type ℓ} → Result E A → (A → Result E B) → Result E B
ok a >>= f = f a
err e >>= f = err e

abbrev pub ◌>>◌ {ℓ} : {E A B : Type ℓ} → Result E A → Result E B → Result E B
m >> k = m >>= λ _. k

pub Result-cases {ℓ} :
    {E A : Type ℓ} (r : Result E A) → ((a : A) × (r ≡ ok a)) ⊎ ((e : E) × (r ≡ err e))
Result-cases (ok a) = inl (a, refl)
Result-cases (err e) = inr (e, refl)

-- A computation that may change the world `W`: the network, the identity provider, the clock, the
-- caller's writer, the task's own shared state.
abbrev pub Action {ℓ} : Type ℓ → Type ℓ → Type ℓ
Action W A = W → A × W

-- `e.await?`: go on with the value, or stop with the error.
abbrev pub and_then {ℓ} :
    {W E A B : Type ℓ} → Action W (Result E A) → (A → Action W (Result E B)) → Action W (Result E B)
and_then m f w = let (r, w') = m w in elim r [ ok a ↦ f a w' | err e ↦ (err e, w') ]

-- `collect::<Result<Vec<_>, _>>()`: the first error in order, or every value in order.
unfoldable pub collect {ℓ} : {E A B : Type ℓ} → (A → Result E B) → List A → Result E (List B)
collect f [] = ok []
collect f (a ∷ as') = f a >>= λ b. collect f as' >>= λ bs. ok (b ∷ bs)

-- `Option::unwrap_or_else` with a default that draws from the world.
abbrev pub unwrap_or_else {ℓ} : {W A : Type ℓ} → Option A → Action W A → Action W A
unwrap_or_else (some a) make w = (a, w)
unwrap_or_else none make w = make w

pub collect-ok {ℓ} :
    {E A B : Type ℓ} (f : A → B) (items : List A)
    → collect {E = E} (λ a. ok (f a)) items ≡ ok (map f items)
unfolding collect
collect-ok f [] = refl
collect-ok {E = E} f (a ∷ rest) = rw (collect-ok {E = E} f rest) refl
