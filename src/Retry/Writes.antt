-- ===== src/Retry/Writes.antt =====
-- What an operation that is retried by `RociaDbClient::retry` of `src/retry.rs` writes, by what one
-- attempt writes.
use mathlib.Core.Path.{subst}
use mathlib.Core.List.{append_assoc, append-nil}
use rociadb_core_sdk_rust.Prelude.{
  ℕ, zero, suc, ◌+◌, ◌*◌, ◌≤◌, ◌<◌, ◌≡◌, refl, sym, ◌∙◌, ◌⊎◌, inl, inr, not, ◌||◌, some, List, [],
  ◌∷◌, ◌++◌, arith, leb, Bool-cases, length, length-append, Result, Result-cases, ok, err,
}
use rociadb_core_sdk_rust.Duration.{Duration}
use rociadb_core_sdk_rust.Error.{Error}
use rociadb_core_sdk_rust.Client.Sends.{Sent}
use rociadb_core_sdk_rust.Retry.{
  RetryPolicy, Effects, attempts, delay, should_retry, retry_from, retry,
}

abbrev pub All : {L : Type 0} → (L → Type 0) → List L → Type 0
All P [] = Unit {0}
All P (x ∷ xs) = P x × All P xs

abbrev pub Any : {L : Type 0} → (L → Type 0) → List L → Type 0
Any P [] = ⊥
Any P (x ∷ xs) = P x ⊎ Any P xs

All-append : {L : Type 0} (P : L → Type 0) (xs ys : List L) → All P xs → All P ys → All P (xs ++ ys)
All-append P [] ys left right = right
All-append P (x ∷ xs) ys (here, left) right = (here, All-append P xs ys left right)

pub Any-append : {L : Type 0} (P : L → Type 0) (xs ys : List L) → Any P ys → Any P (xs ++ ys)
Any-append P [] ys right = right
Any-append P (x ∷ xs) ys right = inr (Any-append P xs ys right)

pub Any-append-left : {L : Type 0} (P : L → Type 0) (xs ys : List L) → Any P xs → Any P (xs ++ ys)
Any-append-left P [] ys left = absurd left
Any-append-left P (x ∷ xs) ys (inl here) = inl here
Any-append-left P (x ∷ xs) ys (inr left) = inr (Any-append-left P xs ys left)

-- Between two logs `most` writes at most were added, all of them `P`, and they are `Done` or
-- the answer is an error.
pub record Added {L T : Type 0} (P : L → Type 0) (Done : List L → Type 0) (most : ℕ)
    (before : List L) (answer : Result Error T) (after : List L) : Type 0 where
  pub added : List L
  pub follows : after ≡ before ++ added
  pub each : All P added
  pub few : length added ≤ most
  pub done : Done added ⊎ ((e : Error) × (answer ≡ err e))

module _ {L T : Type 0} (P : L → Type 0) (Done : List L → Type 0) where
  -- The same under a higher bound, for an answer that is given.
  pub Added-at :
      (most more : ℕ) (before after : List L) (r answer : Result Error T)
      → most ≤ more
      → r ≡ answer
      → Added P Done most before r after
      → Added P Done more before answer after
  Added-at most more before after r answer higher same a = record {
    added = a.added;
    follows = a.follows;
    each = a.each;
    few = omega (arith, a.few, higher);
    done = elim a.done [ inl q ↦ inl q | inr (e, bad) ↦ inr (e, sym same ∙ bad) ];
  }

  pub Added-nothing :
      (most : ℕ) (before after : List L) (e : Error)
      → after ≡ before
      → Added {T = T} P Done most before (err e) after
  Added-nothing most before after e same = record {
    added = [];
    follows = same ∙ sym (append-nil before);
    each = tt;
    few = omega arith;
    done = inr (e, refl);
  }

  -- A failed attempt, and the attempts after it.
  Added-next :
      ((xs ys : List L) → Done ys → Done (xs ++ ys))
      → (first rest : ℕ) (before between after : List L) (e : Error) (answer : Result Error T)
      → Added {T = T} P Done first before (err e) between
      → Added {T = T} P Done rest between answer after
      → Added {T = T} P Done (first + rest) before answer after
  Added-next keeps first rest before between after e answer a b = record {
    added = a.added ++ b.added;
    follows = b.follows ∙ rw a.follows (append_assoc before a.added b.added);
    each = All-append P a.added b.added a.each b.each;
    few = omega (arith, length-append {0} a.added b.added, a.few, b.few);
    done = elim b.done [ inl q ↦ inl (keeps a.added b.added q) | inr failed ↦ inr failed ];
  }

module _ {L T : Type 0} (P Q : L → Type 0) where
  -- One message, sent once or twice.
  pub Sent-Added :
      (l : L) (before after : List L) (answer : Result Error T)
      → P l
      → Q l
      → Sent l before after
      → Added P (Any Q) 2 before answer after
  Sent-Added l before after answer p q (inl once) = record {
    added = l ∷ [];
    follows = once;
    each = (p, tt);
    few = omega arith;
    done = inl (inl q);
  }
  Sent-Added l before after answer p q (inr twice) = record {
    added = l ∷ l ∷ [];
    follows = twice;
    each = (p, (p, tt));
    few = omega arith;
    done = inl (inl q);
  }

-- What a step added that is done in another sense, or failed.
pub Added-done :
    {L T : Type 0} (P : L → Type 0) (First Both : List L → Type 0) (most more : ℕ)
    (before after : List L) (answer : Result Error T)
    → most ≤ more
    → ((xs : List L) → First xs → Both xs ⊎ ((e : Error) × (answer ≡ err e)))
    → Added P First most before answer after
    → Added P Both more before answer after
Added-done P First Both most more before after answer higher also a = record {
  added = a.added;
  follows = a.follows;
  each = a.each;
  few = omega (arith, a.few, higher);
  done = elim a.done [ inl had ↦ also a.added had | inr failed ↦ inr failed ];
}

-- A first step that succeeded, and what a second step adds.
pub Added-then :
    {L A T : Type 0} (P : L → Type 0) (First Next Both : List L → Type 0)
    → ((xs ys : List L) → First xs → Next ys → Both (xs ++ ys))
    → (first rest : ℕ) (before between after : List L) (value : A) (answer : Result Error T)
    → Added P First first before (ok value) between
    → Added P Next rest between answer after
    → Added P Both (first + rest) before answer after
Added-then P First Next Both join first rest before between after value answer a b = record {
  added = a.added ++ b.added;
  follows = b.follows ∙ rw a.follows (append_assoc before a.added b.added);
  each = All-append P a.added b.added a.each b.each;
  few = omega (arith, length-append {0} a.added b.added, a.few, b.few);
  done = elim a.done [
    | inr (e, bad) ↦ absurd (ground arith)
    | inl done_first ↦ elim b.done [
      | inl done_next ↦ inl (join a.added b.added done_first done_next)
      | inr failed ↦ inr failed
    ]
  ];
}

module _ {W T L : Type 0} (env : Effects W T) (policy : RetryPolicy) (log : W → List L)
    (P : L → Type 0) (Done : List L → Type 0) (most : ℕ)
    (keeps : (xs ys : List L) → Done ys → Done (xs ++ ys))
    (op_adds : (w : W) → Added P Done most (log w) (env.op w).0 (log (env.op w).1))
    (new_v4_apart : (w : W) → log (env.new_v4 w).1 ≡ log w)
    (sleep_apart : (d : Duration) (w : W) → log (env.sleep d w) ≡ log w) where
  later :
      (fuel : ℕ) (w w1 w3 w' : W) (x : Error) (answer : Result Error T)
      → Added {T = T} P Done most (log w) (err x) (log w1)
      → log w3 ≡ log w1
      → Added {T = T} P Done (fuel * most) (log w3) answer (log w')
      → Added {T = T} P Done (suc fuel * most) (log w) answer (log w')
  later fuel w w1 w3 w' x answer first same rest =
      Added-at P Done (most + fuel * most) (suc fuel * most) (log w) (log w') answer answer
        (grind arith) refl
        (Added-next P Done keeps most (fuel * most) (log w) (log w1) (log w') x answer first
          (subst (λ l. Added {T = T} P Done (fuel * most) l answer (log w')) same rest))

  retry_from-Added :
      (fuel attempt : ℕ) (w : W)
      → attempt + fuel ≡ attempts policy
      → 0 < fuel
      → (answer : Result Error T) × (w' : W) × (retry_from env policy fuel attempt w
          ≡ some (answer, w'))
        × Added P Done (fuel * most) (log w) answer (log w')
  unfolding retry_from
  retry_from-Added zero attempt w total pos = absurd (omega arith)
  retry_from-Added (suc fuel) attempt w total pos =
      let (r, w1) = env.op w in
      let first : Added P Done most (log w) r (log w1) = op_adds w in
      elim (Result-cases r) [
        | inl (value, e) ↦ (
          ok value,
          w1,
          rw (e, retry_from),
          Added-at P Done most (suc fuel * most) (log w) (log w1) r (ok value) (grind arith) e
              first,
        )
        | inr (x, e) ↦
            elim (Bool-cases (leb (attempts policy) (attempt + 1) || not (should_retry policy x))) [
              | inl stop ↦ (
                err x,
                w1,
                rw (e, retry_from) (rw stop),
                Added-at P Done most (suc fuel * most) (log w) (log w1) r (err x) (grind arith) e
                    first,
              )
              | inr go ↦
                  let w2 = (env.new_v4 w1).1 in
                  let w3 = env.sleep (delay policy attempt (env.new_v4 w1).0) w2 in
                  let (answer, w', returns, rest) =
                    retry_from-Added fuel (attempt + 1) w3 (omega arith) (ground arith) in
                  (
                    answer,
                    w',
                    rw (e, retry_from) (rw go returns),
                    later fuel w w1 w3 w' x answer
                        (Added-at P Done most most (log w) (log w1) r (err x) (omega arith) e first)
                        (sleep_apart (delay policy attempt (env.new_v4 w1).0) w2 ∙ new_v4_apart w1)
                        rest,
                  )
            ]
      ]

  -- A retried operation returns, and has written what its attempts wrote.
  pub retry-Added :
      (w : W)
      → (answer : Result Error T) × (w' : W) × (retry env policy w ≡ some (answer, w'))
        × Added P Done (attempts policy * most) (log w) answer (log w')
  unfolding retry
  retry-Added w =
      retry_from-Added (attempts policy) 0 w (omega arith) (unfold attempts in omega arith)
