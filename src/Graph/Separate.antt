-- ===== src/Graph/Separate.antt =====
-- The groups that `group_preserving_order` of `src/graph.rs` returns are apart: a key's items stand
-- in one group.
use Prim.Native.String.{String}
use mathlib.Core.List.{append_assoc, append-nil}
use mathlib.Core.Path.{subst}
use text.Mathlib.Text.{◌==◌}
use text.Mathlib.TextEquality.{eq_iff}
use rociadb_core_sdk_rust.Prelude.{
  ◌≡◌, refl, sym, ap, ◌∙◌, ◌⊎◌, inl, inr, true, false, List, [], ◌∷◌, ◌++◌, map, flatten, arith,
  Bool-cases,
}
use rociadb_core_sdk_rust.Graph.{group_preserving_order, push_under, grouped}
use rociadb_core_sdk_rust.Graph.Groups.{of_key}

module _ {T : Type 0} (key : T → String) where
  -- At most one of the groups has items with the key.
  abbrev pub IsSole : String → List (List T) → Type 0
  IsSole k [] = Unit
  IsSole k (group ∷ groups) =
      ((of_key key k group ≡ []) × IsSole k groups) ⊎ (of_key key k (flatten groups) ≡ [])

  abbrev values : List (String × List T) → List (List T)
  values groups = map (λ g. g.1) groups

  -- A group holds only items with its own key, and no later group holds one of them.
  abbrev IsFiled : List (String × List T) → Type 0
  IsFiled [] = Unit
  IsFiled ((l, group) ∷ groups) =
      ((k : String) → (l == k) ≡ false → of_key key k group ≡ [])
      × (of_key key l (flatten (values groups)) ≡ [])
      × IsFiled groups

  pub of_key-append :
      (k : String) (xs ys : List T) → of_key key k (xs ++ ys) ≡ of_key key k xs ++ of_key key k ys
  of_key-append k [] ys = refl
  of_key-append k (x ∷ xs) ys = elim (Bool-cases (key x == k)) [
    | inl same ↦ rw same (ap (λ l. x ∷ l) (of_key-append k xs ys))
    | inr other ↦ rw other (of_key-append k xs ys)
  ]

  swap_empty : (xs ys zs : List T) → (ys ≡ []) ⊎ (zs ≡ []) → (xs ++ ys) ++ zs ≡ (xs ++ zs) ++ ys
  swap_empty xs ys zs (inl none_added) =
      rw (none_added, append-nil xs) (sym (append-nil (xs ++ zs)))
  swap_empty xs ys zs (inr none_later) = rw (none_later, append-nil xs) (append-nil (xs ++ ys))

  -- An item that the first group takes has that group's key, so that no later group shares it.
  one_empty :
      (j k : String) (item : T) (rest : List T)
      → (j == key item) ≡ true
      → of_key key j rest ≡ []
      → (of_key key k (item ∷ []) ≡ []) ⊎ (of_key key k rest ≡ [])
  one_empty j k item rest same later = elim (Bool-cases (key item == k)) [
    | inr other ↦ inl (rw other refl)
    | inl here ↦
        let e : j ≡ k = (eq_iff j (key item)).0 same ∙ (eq_iff (key item) k).0 here in
        inr (subst (λ l. of_key key l rest ≡ []) e later)
  ]

  of_key-push_under :
      (k : String) (item : T) (groups : List (String × List T))
      → IsFiled groups
      → of_key key k (flatten (values (push_under key (key item) item groups)))
        ≡ of_key key k (flatten (values groups)) ++ of_key key k (item ∷ [])
  unfolding mathlib.Core.List.flatten
  of_key-push_under k item [] filed = refl
  of_key-push_under k item ((j, group) ∷ groups) (own, later, filed) =
      let rest : List T = flatten (values groups) in
      let one : List T = of_key key k (item ∷ []) in
      elim (Bool-cases (j == key item)) [
        | inl same ↦ rw same (
            of_key-append k (group ++ item ∷ []) rest
            ∙ ap (λ l. l ++ of_key key k rest) (of_key-append k group (item ∷ []))
            ∙ swap_empty (of_key key k group) one (of_key key k rest)
                (one_empty j k item rest same later)
            ∙ ap (λ l. l ++ one) (sym (of_key-append k group rest)))
        | inr other ↦ rw other (
            of_key-append k group (flatten (values (push_under key (key item) item groups)))
            ∙ ap (λ l. of_key key k group ++ l) (of_key-push_under k item groups filed)
            ∙ sym (append_assoc (of_key key k group) (of_key key k rest) one)
            ∙ ap (λ l. l ++ one) (sym (of_key-append k group rest)))
      ]

  push_under-IsFiled :
      (item : T) (groups : List (String × List T))
      → IsFiled groups
      → IsFiled (push_under key (key item) item groups)
  unfolding mathlib.Core.List.flatten
  push_under-IsFiled item [] filed = ((λ k other. rw other refl), refl, tt)
  push_under-IsFiled item ((j, group) ∷ groups) (own, later, filed) =
      elim (Bool-cases (j == key item)) [
        | inl same ↦
            let e : j ≡ key item = (eq_iff j (key item)).0 same in
            rw same (
              (λ k other.
                  let off : (key item == k) ≡ false = subst (λ l. (l == k) ≡ false) e other in
                  of_key-append k group (item ∷ []) ∙ rw (own k other, off) refl),
              later,
              filed,
            )
        | inr other ↦
            let off : (key item == j) ≡ false = elim (Bool-cases (key item == j)) [
              | inr off ↦ off
              | inl on ↦
                  let on' : (j == key item) ≡ true =
                    (eq_iff j (key item)).1 (sym ((eq_iff (key item) j).0 on)) in
                  absurd (ground arith)
            ] in
            rw other (
              own,
              of_key-push_under j item groups filed ∙ rw (later, off) refl,
              push_under-IsFiled item groups filed,
            )
      ]

  grouped-IsFiled :
      (items : List T) (groups : List (String × List T))
      → IsFiled groups
      → IsFiled (grouped key items groups)
  grouped-IsFiled [] groups filed = filed
  grouped-IsFiled (item ∷ items) groups filed =
      grouped-IsFiled items (push_under key (key item) item groups)
        (push_under-IsFiled item groups filed)

  of_key-grouped :
      (k : String) (items : List T) (groups : List (String × List T))
      → IsFiled groups
      → of_key key k (flatten (values (grouped key items groups)))
        ≡ of_key key k (flatten (values groups)) ++ of_key key k items
  of_key-grouped k [] groups filed = sym (append-nil (of_key key k (flatten (values groups))))
  of_key-grouped k (item ∷ items) groups filed =
      of_key-grouped k items (push_under key (key item) item groups)
        (push_under-IsFiled item groups filed)
      ∙ ap (λ l. l ++ of_key key k items) (of_key-push_under k item groups filed)
      ∙ append_assoc (of_key key k (flatten (values groups))) (of_key key k (item ∷ []))
          (of_key key k items)
      ∙ ap (λ l. of_key key k (flatten (values groups)) ++ l)
          (sym (of_key-append k (item ∷ []) items))

  IsFiled-IsSole :
      (k : String) (groups : List (String × List T)) → IsFiled groups → IsSole k (values groups)
  IsFiled-IsSole k [] filed = tt
  IsFiled-IsSole k ((j, group) ∷ groups) (own, later, filed) = elim (Bool-cases (j == k)) [
    | inr other ↦ inl (own k other, IsFiled-IsSole k groups filed)
    | inl same ↦
        inr (subst (λ l. of_key key l (flatten (values groups)) ≡ []) ((eq_iff j k).0 same) later)
  ]

  pub group_preserving_order-IsSole :
      (k : String) (items : List T) → IsSole k (group_preserving_order key items)
  unfolding group_preserving_order
  group_preserving_order-IsSole k items =
      IsFiled-IsSole k (grouped key items []) (grouped-IsFiled items [] tt)

  pub of_key-group_preserving_order :
      (k : String) (items : List T)
      → of_key key k (flatten (group_preserving_order key items)) ≡ of_key key k items
  unfolding group_preserving_order mathlib.Core.List.flatten
  of_key-group_preserving_order k items = of_key-grouped k items [] tt
