-- ===== src/Auth/Tasks/Progress.antt =====
-- No deadlock among the concurrent calls of the token manager of `src/auth.rs`.
use rociadb_core_sdk_rust.Prelude.{
  ℕ, zero, suc, ◌+◌, ◌^◌, ◌≤◌, ◌<◌, ◌≡◌, refl, inl, inr, false, Option, none, some, List, [], ◌∷◌,
  ◌++◌, arith, Option-cases, length, length-append, ok, ◌⊎◌,
}
use rociadb_core_sdk_rust.Duration.{Duration}
use rociadb_core_sdk_rust.Auth.{TokenManager, Provider, new}
use rociadb_core_sdk_rust.Auth.Tasks.{
  Outcome, Pc, returned, still_fresh, dropped, System, Event, turn, cancel, passes, noted, step,
  completes, run,
}
use rociadb_core_sdk_rust.Auth.Tasks.Ledger.{holds, TaskOk, Sound}
use rociadb_core_sdk_rust.Auth.Tasks.Steps.{run-Sound}
use rociadb_core_sdk_rust.Auth.Tasks.Turns.{
  IsOver, no_steps-IsOver, steps_left-le, turns, turns-Closer,
}
use rociadb_core_sdk_rust.Auth.Tasks.Calls.{launch, launch-Sound}
use rociadb_core_sdk_rust.Auth.Tasks.Answers.{length-run}

-- The events are turns of the task `i` or of the task that holds the lock, and nothing else.
abbrev pub TurnsOf : {E : Type 0} → ℕ → Option ℕ → List (Event E) → Type 0
TurnsOf i h [] = Unit {0}
TurnsOf i h (turn k ∷ rest) = ((k ≡ i) ⊎ (h ≡ some k)) × TurnsOf i h rest
TurnsOf i h (cancel k ∷ rest) = ⊥
TurnsOf i h (passes f ∷ rest) = ⊥

module _ {E : Type 0} (idp : Provider E) where
  length-turns : (i n : ℕ) → length (turns {E = E} i n) ≡ n
  length-turns i zero = refl
  length-turns i (suc n) = omega (arith, length-turns i n)

  own-TurnsOf : (i : ℕ) (h : Option ℕ) (n : ℕ) → TurnsOf {E = E} i h (turns i n)
  own-TurnsOf i h zero = tt
  own-TurnsOf i h (suc n) = (inl refl, own-TurnsOf i h n)

  holder-TurnsOf : (i j : ℕ) (h : Option ℕ) (n : ℕ) → h ≡ some j → TurnsOf {E = E} i h (turns j n)
  holder-TurnsOf i j h zero held = tt
  holder-TurnsOf i j h (suc n) held = (inr held, holder-TurnsOf i j h n held)

  TurnsOf-append :
      (i : ℕ) (h : Option ℕ) (xs ys : List (Event E))
      → TurnsOf i h xs
      → TurnsOf i h ys
      → TurnsOf i h (xs ++ ys)
  TurnsOf-append i h [] ys first second = second
  TurnsOf-append i h (turn k ∷ xs) ys (here, first) second =
      (here, TurnsOf-append i h xs ys first second)
  TurnsOf-append i h (cancel k ∷ xs) ys first second = absurd first
  TurnsOf-append i h (passes f ∷ xs) ys first second = absurd first

  run-append :
      (xs ys : List (Event E)) (log : List Outcome) (s : System E)
      → run idp (xs ++ ys) (log, s) ≡ run idp ys (run idp xs (log, s))
  unfolding run
  run-append [] ys log s = refl
  run-append (event ∷ xs) ys log s =
      run-append xs ys (noted (completes idp event s) log) (step idp event s)

  IsOver-away :
      (log : List Outcome) (m : TokenManager) (h : Option ℕ) (j : ℕ) (p : Pc)
      → IsOver p
      → TaskOk idp 0 log m h j p
      → holds h j ≡ false
  IsOver-away log m h j (returned g r) over here = here.0
  IsOver-away log m h j still_fresh over here = here
  IsOver-away log m h j dropped over here = here
  IsOver-away log m h j p over here = absurd over

  -- The holder of the lock ends its call and lets the lock go.
  holder_lets_go :
      (log : List Outcome) (s : System E) (j : ℕ)
      → length log + 9 < 2 ^ 64
      → Sound idp 0 log s
      → s.holder ≡ some j
      → (run idp (turns j 9) (log, s)).1.holder ≡ none
  holder_lets_go log s j fits sound held =
      let (log', s') = run idp (turns j 9) (log, s) in
      let sound' : Sound idp 0 log' s' =
        run-Sound idp 0 (turns j 9) log s (omega (arith, fits, length-turns j 9)) sound in
      let (few, clear) =
        turns-Closer idp 9 j log s fits sound (inr held) (steps_left-le (s.pc j)) in
      let away : holds s'.holder j ≡ false =
        IsOver-away log' s'.manager s'.holder j (s'.pc j) (no_steps-IsOver (s'.pc j) few)
          (sound'.tasks j) in
      elim clear [ inl free ↦ free | inr own ↦ absurd (ground arith) ]

  -- Turns of a call that finds the lock free end it.
  ends_when_free :
      (log : List Outcome) (s : System E) (i : ℕ)
      → length log + 9 < 2 ^ 64
      → Sound idp 0 log s
      → s.holder ≡ none
      → IsOver ((run idp (turns i 9) (log, s)).1.pc i)
  ends_when_free log s i fits sound free =
      no_steps-IsOver ((run idp (turns i 9) (log, s)).1.pc i)
        (turns-Closer idp 9 i log s fits sound (inl free) (steps_left-le (s.pc i))).0

  -- The holder first, then the call.
  ends_after_holder :
      (log : List Outcome) (s : System E) (i j : ℕ)
      → length log + 18 < 2 ^ 64
      → Sound idp 0 log s
      → s.holder ≡ some j
      → IsOver ((run idp (turns j 9 ++ turns i 9) (log, s)).1.pc i)
  ends_after_holder log s i j fits sound held = rw (run-append (turns j 9) (turns i 9) log s) (
      let (log', s') = run idp (turns j 9) (log, s) in
      ends_when_free log' s' i
        (omega (arith, fits, length-run idp (turns j 9) log s, length-turns j 9))
        (run-Sound idp 0 (turns j 9) log s (omega (arith, fits, length-turns j 9)) sound)
        (holder_lets_go log s j (omega (arith, fits)) sound held))

  -- No deadlock: whatever calls of a new token manager run side by side, and however far they are,
  -- every one of them can end, in eighteen turns at most, each of its own or of the call that holds the
  -- refresh lock by then, without a call being dropped. There are fewer than 2 ^ 64 - 18 events before.
  pub every_call_can_end :
      (e : E) (m : TokenManager) (calls : ℕ → Option Duration)
      → (new idp e).0 ≡ ok m
      → (w : E) (events : List (Event E)) (i : ℕ) → length events + 18 < 2 ^ 64
      → (more : List (Event E)) × TurnsOf i (run idp events ([], launch m w calls)).1.holder more
        × (length more ≤ 18)
        × IsOver ((run idp more (run idp events ([], launch m w calls))).1.pc i)
  every_call_can_end e m calls made w events i fits =
      let (log, s) = run idp events ([], launch m w calls) in
      let sound : Sound idp 0 log s =
        run-Sound idp 0 events [] (launch m w calls) (omega (arith, fits))
          (launch-Sound idp e m calls made w) in
      let room : length log + 18 < 2 ^ 64 =
        omega (arith, fits, length-run idp events [] (launch m w calls)) in
      elim (Option-cases s.holder) [
        | inl free ↦ (
          turns i 9,
          own-TurnsOf i s.holder 9,
          omega (arith, length-turns i 9),
          ends_when_free log s i (omega (arith, room)) sound free,
        )
        | inr (j, held) ↦ (
          turns j 9 ++ turns i 9,
          TurnsOf-append i s.holder (turns j 9) (turns i 9) (holder-TurnsOf i j s.holder 9 held)
              (own-TurnsOf i s.holder 9),
          omega (
            arith,
            length-append {0} (turns {E = E} j 9) (turns i 9),
            length-turns j 9,
            length-turns i 9,
          ),
          ends_after_holder log s i j room sound held,
        )
      ]
