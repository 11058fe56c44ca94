-- ===== src/Graph/Groups.antt =====
-- The grouping of a batch by its target (`group_preserving_order` of `src/graph.rs`).
use Prim.Native.String.{String}
use mathlib.Core.List.{append_assoc, append-nil}
use text.Mathlib.Text.{◌==◌}
use text.Mathlib.TextEquality.{eq_iff}
use rociadb_core_sdk_rust.Prelude.{
  ◌+◌, ◌≡◌, refl, sym, ◌∙◌, inl, inr, true, List, [], ◌∷◌, ◌++◌, map, flatten, arith, if◌then◌else◌,
  Bool-cases, length, length-append,
}
use rociadb_core_sdk_rust.Graph.{group_preserving_order, push_under, grouped}

module _ {T : Type 0} (key : T → String) where
  -- The items with a key, in their order.
  abbrev pub of_key : String → List T → List T
  of_key k [] = []
  of_key k (item ∷ items) = let rest = of_key k items in if key item == k then item ∷ rest else rest

  -- The group that the map holds under a key.
  abbrev pub group_at : String → List (String × List T) → List T
  group_at k [] = []
  group_at k ((l, group) ∷ groups) = let rest = group_at k groups in if l == k then group else rest

  abbrev appended : String → T → String → List T → List T
  appended l item k group = if l == k then group ++ item ∷ [] else group

  group_at-push_under :
      (l k : String) (item : T) (groups : List (String × List T))
      → group_at k (push_under key l item groups) ≡ appended l item k (group_at k groups)
  group_at-push_under l k item [] = refl
  group_at-push_under l k item ((j, group) ∷ groups) = elim (Bool-cases (j == l)) [
    | inl same ↦
        let e : l ≡ j = sym ((eq_iff j l).0 same) in
        rw same (
          rw e (elim (Bool-cases (j == k)) [ inl here ↦ rw here refl | inr other ↦ rw other refl ]))
    | inr differ ↦ elim (Bool-cases (j == k)) [
      | inr other ↦ rw (differ, other) (group_at-push_under l k item groups)
      | inl here ↦ elim (Bool-cases (l == k)) [
        | inr off ↦ rw (differ, here, off) refl
        | inl on ↦
            let e : j ≡ l = (eq_iff j k).0 here ∙ sym ((eq_iff l k).0 on) in
            let clash : (j == l) ≡ true = (eq_iff j l).1 e in absurd (ground arith)
      ]
    ]
  ]

  appended-of_key :
      (item : T) (k : String) (xs items : List T)
      → appended (key item) item k xs ++ of_key k items ≡ xs ++ of_key k (item ∷ items)
  appended-of_key item k xs items = elim (Bool-cases (key item == k)) [
    | inl same ↦ rw same (append_assoc xs (item ∷ []) (of_key k items))
    | inr other ↦ rw other refl
  ]

  grouped_lem :
      (items : List T) (groups : List (String × List T)) (k : String)
      → group_at k (grouped key items groups) ≡ group_at k groups ++ of_key k items
  grouped_lem [] groups k = sym (append-nil (group_at k groups))
  grouped_lem (item ∷ items) groups k =
      grouped_lem items (push_under key (key item) item groups) k
      ∙ rw (group_at-push_under (key item) k item groups)
          (appended-of_key item k (group_at k groups) items)

  flatten-push_under :
      (l : String) (item : T) (groups : List (String × List T))
      → length (flatten (map (λ g. g.1) (push_under key l item groups)))
        ≡ length (flatten (map (λ g. g.1) groups)) + 1
  unfolding mathlib.Core.List.flatten
  flatten-push_under l item [] = refl
  flatten-push_under l item ((j, group) ∷ groups) =
      let old : List T = flatten (map (λ g. g.1) groups) in
      let more : List T = flatten (map (λ g. g.1) (push_under key l item groups)) in
      elim (Bool-cases (j == l)) [
        | inl same ↦ rw same (
            omega (
              arith,
              length-append (group ++ item ∷ []) old,
              length-append group (item ∷ []),
              length-append group old,
            ))
        | inr differ ↦ rw differ (
            omega (
              arith,
              flatten-push_under l item groups,
              length-append group more,
              length-append group old,
            ))
      ]

  flatten-grouped :
      (items : List T) (groups : List (String × List T))
      → length (flatten (map (λ g. g.1) (grouped key items groups)))
        ≡ length (flatten (map (λ g. g.1) groups)) + length items
  flatten-grouped [] groups = omega arith
  flatten-grouped (item ∷ items) groups = omega (
    arith,
    flatten-grouped items (push_under key (key item) item groups),
    flatten-push_under (key item) item groups,
  )

  -- The map holds under every key exactly the items with that key, in their order, and the groups
  -- that are returned have as many items together as there are: none is lost, repeated or
  -- reordered within its group.
  pub group_preserving_order_lem :
      (items : List T)
      → ((k : String) → group_at k (grouped key items []) ≡ of_key k items)
        × (length (flatten (group_preserving_order key items)) ≡ length items)
  unfolding group_preserving_order mathlib.Core.List.flatten
  group_preserving_order_lem items =
      (λ k. grouped_lem items [] k, omega (arith, flatten-grouped items []))
