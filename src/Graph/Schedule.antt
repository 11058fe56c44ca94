-- ===== src/Graph/Schedule.antt =====
-- Tasks that run side by side, as the batch writes of `src/graph.rs` run them, and what becomes of
-- the order of their calls.
use Prim.Native.String.{String}
use mathlib.Core.List.{append_assoc, append-nil}
use mathlib.Core.Path.{subst}
use text.Mathlib.Text.{◌==◌}
use rociadb_core_sdk_rust.Prelude.{
  ℕ, ◌≡◌, refl, sym, ap, ◌∙◌, inl, inr, true, false, List, [], ◌∷◌, ◌++◌, map, flatten, arith,
  Bool-cases, Result, Action, ok, err,
}
use rociadb_core_sdk_rust.Error.{Error}
use rociadb_core_sdk_rust.Client.Sends.{Sent}
use rociadb_core_sdk_rust.Graph.Groups.{of_key}
use rociadb_core_sdk_rust.Graph.Separate.{IsSole, of_key-append}
use rociadb_core_sdk_rust.Graph.Batch.{Task, TryForEach, one_by_one}

-- The first item of one of the lists, and the lists without it.
pub data Picks {A : Type 0} : List (List A) → A → List (List A) → Type 0 where
  here :
      {a : A} {rest : List A} {lists : List (List A)} → Picks ((a ∷ rest) ∷ lists) a (rest ∷ lists)
  later :
      {a : A} {list : List A} {lists lists' : List (List A)}
      → Picks lists a lists'
      → Picks (list ∷ lists) a (list ∷ lists')

module _ {W : Type 0} where
  -- The calls that were under way when the run was given up: each was made or not, and nobody
  -- reads its answer.
  pub data Abandoned : List (Task W) → W → W → Type 0 where
    none_more : {tasks : List (Task W)} {w : W} → Abandoned tasks w w
    one_more :
        {tasks rest : List (Task W)} {call : Action W (Result Error (Unit {0}))} {w w' : W}
        → Picks tasks call rest
        → Abandoned rest (call w).1 w'
        → Abandoned tasks w w'

  -- A run of the tasks: the next call of any of them, until all are done or one has failed.
  pub data Interleaved : List (Task W) → W → Result Error (Unit {0}) → W → Type 0 where
    finished : {tasks : List (Task W)} {w : W} → flatten tasks ≡ [] → Interleaved tasks w (ok tt) w
    next :
        {tasks rest : List (Task W)} {call : Action W (Result Error (Unit {0}))} {w w' : W}
        {answer : Result Error (Unit {0})}
        → Picks tasks call rest
        → (call w).0 ≡ ok tt
        → Interleaved rest (call w).1 answer w'
        → Interleaved tasks w answer w'
    failed :
        {tasks rest : List (Task W)} {call : Action W (Result Error (Unit {0}))} {w w' : W}
        {e : Error}
        → Picks tasks call rest
        → (call w).0 ≡ err e
        → Abandoned rest (call w).1 w'
        → Interleaved tasks w (err e) w'

-- What `try_for_each_concurrent` promises: its answer is that of a run of the tasks.
abbrev pub IsConcurrent : {W : Type 0} → TryForEach W → Type 0
IsConcurrent {W} run =
    (limit : ℕ) (tasks : List (Task W)) (w : W)
    → let (answer, w') = run limit tasks w in Interleaved tasks w answer w'

-- Each item once, or twice in a row.
pub data Repeats {A : Type 0} : List A → List A → Type 0 where
  nothing : Repeats [] []
  once : {a : A} {items sent : List A} → Repeats items sent → Repeats (a ∷ items) (a ∷ sent)
  twice : {a : A} {items sent : List A} → Repeats items sent → Repeats (a ∷ items) (a ∷ a ∷ sent)

-- The items were written in their order, all of them if the answer is a success, and a first part of
-- them otherwise.
pub data Written {A : Type 0} (items before after : List A) : Result Error (Unit {0}) → Type 0 where
  all_written :
      (written : List A)
      → Repeats items written
      → after ≡ before ++ written
      → Written items before after (ok tt)
  some_written :
      {e : Error} (first rest written : List A)
      → items ≡ first ++ rest
      → Repeats first written
      → after ≡ before ++ written
      → Written items before after (err e)

append_empty : {A : Type 0} (xs ys : List A) → xs ++ ys ≡ [] → ys ≡ []
append_empty [] ys empty = empty
append_empty (x ∷ xs) ys empty = absurd (ground arith)

module _ {A : Type 0} where
  one-Written :
      {a : A} {items before between after : List A} {answer : Result Error (Unit {0})}
      → Sent a before between
      → Written items between after answer
      → Written (a ∷ items) before after answer
  one-Written {a} {items} {before} (inl sent) (all_written written each adds) =
      all_written (a ∷ written) (once each) (adds ∙ rw sent (append_assoc before (a ∷ []) written))
  one-Written {a} {items} {before} (inr sent) (all_written written each adds) =
      all_written (a ∷ a ∷ written) (twice each)
        (adds ∙ rw sent (append_assoc before (a ∷ a ∷ []) written))
  one-Written {a} {items} {before} (inl sent) (some_written first rest written split each adds) =
      some_written (a ∷ first) rest (a ∷ written) (ap (λ l. a ∷ l) split) (once each)
        (adds ∙ rw sent (append_assoc before (a ∷ []) written))
  one-Written {a} {items} {before} (inr sent) (some_written first rest written split each adds) =
      some_written (a ∷ first) rest (a ∷ a ∷ written) (ap (λ l. a ∷ l) split) (twice each)
        (adds ∙ rw sent (append_assoc before (a ∷ a ∷ []) written))

module _ {A : Type 0} (key : A → String) where
  -- Of the items with a key, a message adds itself or nothing.
  Sent-of_key :
      (k : String) (a : A) (before after : List A)
      → (key a == k) ≡ true
      → Sent a before after
      → Sent a (of_key key k before) (of_key key k after)
  Sent-of_key k a before after same (inl sent) =
      inl (rw sent (of_key-append key k before (a ∷ []) ∙ rw same refl))
  Sent-of_key k a before after same (inr sent) =
      inr (rw sent (of_key-append key k before (a ∷ a ∷ []) ∙ rw same refl))

  Sent-other_key :
      (k : String) (a : A) (before after : List A)
      → (key a == k) ≡ false
      → Sent a before after
      → of_key key k after ≡ of_key key k before
  Sent-other_key k a before after other (inl sent) =
      rw sent (of_key-append key k before (a ∷ []) ∙ rw other (append-nil (of_key key k before)))
  Sent-other_key k a before after other (inr sent) =
      rw sent
        (of_key-append key k before (a ∷ a ∷ []) ∙ rw other (append-nil (of_key key k before)))

  step-Written :
      (k : String) (a : A) (items before between after : List A) (answer : Result Error (Unit {0}))
      → Sent a before between
      → Written (of_key key k items) (of_key key k between) after answer
      → Written (of_key key k (a ∷ items)) (of_key key k before) after answer
  step-Written k a items before between after answer sent written = elim (Bool-cases (key a == k)) [
    | inl same ↦ rw same (one-Written (Sent-of_key k a before between same sent) written)
    | inr other ↦ rw other (
        subst (λ l. Written (of_key key k items) l after answer)
          (Sent-other_key k a before between other sent) written)
  ]

  none-IsSole :
      (k : String) (groups : List (List A))
      → of_key key k (flatten groups) ≡ []
      → IsSole key k groups
  unfolding mathlib.Core.List.flatten
  none-IsSole k [] empty = tt
  none-IsSole k (group ∷ groups) empty = inr (
      append_empty (of_key key k group) (of_key key k (flatten groups))
        (sym (of_key-append key k group (flatten groups)) ∙ empty))

  -- Taking the first item of a group takes the first item of its key.
  Picks-of_key :
      (k : String) {a : A} {groups groups' : List (List A)}
      → Picks groups a groups'
      → IsSole key k groups
      → (of_key key k (flatten groups) ≡ of_key key k (a ∷ flatten groups')) × IsSole key k groups'
  unfolding mathlib.Core.List.flatten
  Picks-of_key k (here {a = a} {rest = rest}) (inr empty) = (refl, inr empty)
  Picks-of_key k (here {a = a} {rest = rest}) (inl (none_here, sole)) = (
    refl,
    inl (
      elim (Bool-cases (key a == k)) [
        | inl same ↦ absurd (ground arith)
        | inr other ↦ ground arith
      ],
      sole,
    ),
  )
  Picks-of_key k (later {a = a} {list = group} {lists = groups} {lists' = groups'} picks) sole =
      let whole : List A = of_key key k (flatten groups) in
      let left : List A = of_key key k (flatten groups') in
      let rest_sole : IsSole key k groups = elim sole [
        | inl (none_here, others) ↦ others
        | inr empty ↦ none-IsSole k groups empty
      ] in
      let (taken, still) = Picks-of_key k picks rest_sole in
      elim (Bool-cases (key a == k)) [
        | inr other ↦
            let same : whole ≡ left = taken ∙ rw other refl in
            (
              rw other (
                  of_key-append key k group (flatten groups)
                  ∙ ap (λ l. of_key key k group ++ l) same
                  ∙ sym (of_key-append key k group (flatten groups'))),
              elim sole [
                | inl (none_here, others) ↦ inl (none_here, still)
                | inr empty ↦ inr (sym same ∙ empty)
              ],
            )
        | inl on ↦
            let first : whole ≡ a ∷ left = taken ∙ rw on refl in
            elim sole [
              | inr empty ↦ absurd (ground arith)
              | inl (none_here, others) ↦
                  let plain : of_key key k (group ++ flatten groups') ≡ left =
                    of_key-append key k group (flatten groups') ∙ rw none_here refl in
                  let full : of_key key k (group ++ flatten groups) ≡ a ∷ left =
                    of_key-append key k group (flatten groups) ∙ rw (none_here, first) refl in
                  (rw on (full ∙ ap (λ l. a ∷ l) (sym plain)), inl (none_here, still))
            ]
      ]

module _ {W A : Type 0} (key : A → String) (call : A → Action W (Result Error (Unit {0})))
    (log : W → List A) (sends : (a : A) (w : W) → Sent a (log w) (log (call a w).1)) where
  abbrev tasks_of : List (List A) → List (Task W)
  tasks_of groups = map (one_by_one call) groups

  -- A call that is picked is that of an item that is picked.
  Picks-map :
      (groups : List (List A)) {tasks rest : List (Task W)} {c : Action W (Result Error (Unit {0}))}
      → Picks tasks c rest
      → tasks ≡ tasks_of groups
      → (a : A) × (groups' : List (List A)) × (c ≡ call a)
        × (rest ≡ tasks_of groups')
        × Picks groups a groups'
  Picks-map [] (here) same = absurd (ground arith)
  Picks-map ([] ∷ groups) (here) same = absurd (ground arith)
  Picks-map ((a ∷ group) ∷ groups) (here) same = (a, group ∷ groups, cc same, cc same, here)
  Picks-map [] (later picks) same = absurd (ground arith)
  Picks-map (group ∷ groups) (later {lists = lists} picks) same =
      let tail : lists ≡ tasks_of groups = cc same in
      let (a, groups', is, left, picked) = Picks-map groups picks tail in
      (a, group ∷ groups', is, cc (same, left), later picked)

  tasks_empty : (groups : List (List A)) → flatten (tasks_of groups) ≡ [] → flatten groups ≡ []
  unfolding mathlib.Core.List.flatten
  tasks_empty [] empty = refl
  tasks_empty ([] ∷ groups) empty = tasks_empty groups empty
  tasks_empty ((a ∷ group) ∷ groups) empty = absurd (ground arith)

  -- The call for an item, told by an equation.
  call-Sent :
      (c : Action W (Result Error (Unit {0}))) (a : A) (w : W)
      → c ≡ call a
      → Sent a (log w) (log (c w).1)
  call-Sent c a w is = subst (λ f. Sent a (log w) (log (f w).1)) (sym is) (sends a w)

  Abandoned-Written :
      {tasks : List (Task W)} {w w' : W} (k : String) (e : Error) (groups : List (List A))
      → tasks ≡ tasks_of groups
      → IsSole key k groups
      → Abandoned tasks w w'
      → Written
          (of_key key k (flatten groups))
          (of_key key k (log w))
          (of_key key k (log w'))
          (err e)
  Abandoned-Written {w = w} k e groups same sole none_more =
      some_written [] (of_key key k (flatten groups)) [] refl nothing
        (sym (append-nil (of_key key k (log w))))
  Abandoned-Written k e groups same sole (one_more {call = c} {w = w} {w' = w'} picks more) =
      let (a, groups', is, left, picked) = Picks-map groups picks same in
      let (taken, still) = Picks-of_key key k picked sole in
      rw taken (
        step-Written key k a (flatten groups') (log w) (log (c w).1) (of_key key k (log w')) (err e)
          (call-Sent c a w is) (Abandoned-Written k e groups' left still more))

  -- Whatever the order in which the tasks take turns, the items of one key are written in their order.
  pub Interleaved-Written :
      {tasks : List (Task W)} {w w' : W} {answer : Result Error (Unit {0})} (k : String)
      (groups : List (List A))
      → tasks ≡ tasks_of groups
      → IsSole key k groups
      → Interleaved tasks w answer w'
      → Written
          (of_key key k (flatten groups))
          (of_key key k (log w))
          (of_key key k (log w'))
          answer
  Interleaved-Written {w = w} k groups same sole (finished empty) =
      let none_left : flatten groups ≡ [] =
        tasks_empty groups (subst (λ t. flatten t ≡ []) same empty) in
      rw none_left (all_written [] nothing (sym (append-nil (of_key key k (log w)))))
  Interleaved-Written k groups same sole
        (next {call = c} {w = w} {w' = w'} {answer = answer} picks good run) =
      let (a, groups', is, left, picked) = Picks-map groups picks same in
      let (taken, still) = Picks-of_key key k picked sole in
      rw taken (
        step-Written key k a (flatten groups') (log w) (log (c w).1) (of_key key k (log w')) answer
          (call-Sent c a w is) (Interleaved-Written k groups' left still run))
  Interleaved-Written k groups same sole
        (failed {call = c} {w = w} {w' = w'} {e = e} picks bad more) =
      let (a, groups', is, left, picked) = Picks-map groups picks same in
      let (taken, still) = Picks-of_key key k picked sole in
      rw taken (
        step-Written key k a (flatten groups') (log w) (log (c w).1) (of_key key k (log w')) (err e)
          (call-Sent c a w is) (Abandoned-Written k e groups' left still more))
