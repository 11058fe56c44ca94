-- ===== src/Graph/Paging.antt =====
-- The walk over the pages of a node's neighbors (`get_neighbor_nodes` of `src/graph.rs`).
use Prim.Native.String.{String}
use mathlib.Core.List.{append_assoc}
use text.Mathlib.Text.{◌==◌}
use text.Mathlib.TextEquality.{eq_iff}
use rociadb_core_sdk_rust.Prelude.{
  ℕ, zero, suc, ◌+◌, ◌≤◌, ◌≡◌, refl, sym, ap, ◌∙◌, inl, inr, true, false, Option, none, some, List,
  [], ◌∷◌, ◌++◌, arith, if◌then◌else◌, Bool-cases, Option-cases, length, Result, Result-cases,
  Action, ok, err,
}
use rociadb_core_sdk_rust.Error.{Error}
use rociadb_core_sdk_rust.Client.{Page}
use rociadb_core_sdk_rust.Graph.{Neighbor, contains, inserted, next_pagination_cursor, walk_pages}

-- How many of `cursors` have not been seen.
abbrev pub unseen : List String → List String → ℕ
unseen [] seen = 0
unseen (c ∷ cursors) seen =
    if contains seen c then unseen cursors seen else suc (unseen cursors seen)

unseen-le : (cursors seen : List String) → unseen cursors seen ≤ length cursors
unseen-le [] seen = omega arith
unseen-le (c ∷ cursors) seen = ground (arith, unseen-le cursors seen)

unseen-cons :
    (cursors seen : List String) (d : String) → unseen cursors (d ∷ seen) ≤ unseen cursors seen
unseen-cons [] seen d = omega arith
unseen-cons (c ∷ cursors) seen d = elim (Bool-cases (contains seen c)) [
  | inl old ↦ elim (Bool-cases (d == c)) [
    | inl same ↦ rw (same, old) (unseen-cons cursors seen d)
    | inr other ↦ rw (other, old) (unseen-cons cursors seen d)
  ]
  | inr new ↦ elim (Bool-cases (d == c)) [
    | inl same ↦ rw (same, new) (omega (arith, unseen-cons cursors seen d))
    | inr other ↦ rw (other, new) (omega (arith, unseen-cons cursors seen d))
  ]
]

-- A cursor that is seen for the first time leaves fewer to see.
unseen_less :
    (cursors seen : List String) (d : String)
    → contains cursors d ≡ true
    → contains seen d ≡ false
    → suc (unseen cursors (d ∷ seen)) ≤ unseen cursors seen
unseen_less [] seen d known new = cc
unseen_less (c ∷ cursors) seen d known new = elim (Bool-cases (c == d)) [
  | inl same ↦
      let e : c ≡ d = (eq_iff c d).0 same in
      let same' : (d == c) ≡ true = (eq_iff d c).1 (sym e) in
      let new' : contains seen c ≡ false = rw e new in
      rw (same', new') (omega (arith, unseen-cons cursors seen d))
  | inr other ↦
      let rest : suc (unseen cursors (d ∷ seen)) ≤ unseen cursors seen =
        unseen_less cursors seen d (sym (rw other refl) ∙ known) new in
      elim (Bool-cases (contains seen c)) [
        | inl old ↦ elim (Bool-cases (d == c)) [
          | inl same ↦ rw (same, old) rest
          | inr differs ↦ rw (differs, old) rest
        ]
        | inr fresh ↦ elim (Bool-cases (d == c)) [
          | inl same ↦ rw (same, fresh) (omega (arith, rest))
          | inr differs ↦ rw (differs, fresh) (omega (arith, rest))
        ]
      ]
]

some_inj : {c d : String} → some c ≡ some d → c ≡ d
some_inj h = cc

next_pagination_cursor_lem :
    (seen : List String) (answered : Option String) (next : String)
    → next_pagination_cursor seen answered ≡ some next
    → (answered ≡ some next) × (contains seen next ≡ false)
next_pagination_cursor_lem seen none next h = cc
next_pagination_cursor_lem seen (some c) next h = elim (Bool-cases (contains seen c)) [
  | inl old ↦ absurd (ground arith)
  | inr new ↦
      let same : c ≡ next = some_inj (sym (rw new refl) ∙ h) in (ap some same, rw (← same) new)
]

module _ {W : Type 0}
    (neighbors_page : Option String → Action W (Result Error (Page Neighbor))) where
  -- The cursors that the server hands out, whatever it is asked.
  abbrev pub HandsOut : List String → Type 0
  HandsOut cursors =
      (c : Option String) (w : W) (p : Page Neighbor) (next : String)
      → (neighbors_page c w).0 ≡ ok p
      → p.next_cursor ≡ some next
      → contains cursors next ≡ true

  -- The fuel that a round needs: its own cursor is still to be inserted.
  abbrev to_go : List String → Option String → List String → ℕ
  to_go cursors cursor seen = suc (unseen cursors (inserted cursor seen))

  walk_pages_ends :
      (cursors : List String) (fuel : ℕ) (cursor : Option String) (seen : List String)
      (neighbors : List Neighbor) (w : W)
      → HandsOut cursors
      → to_go cursors cursor seen ≤ fuel
      → (r : Result Error (List Neighbor) × W) × (walk_pages neighbors_page fuel cursor seen
            neighbors w
          ≡ some r)
  unfolding walk_pages
  walk_pages_ends cursors zero cursor seen neighbors w hands enough = absurd (omega arith)
  walk_pages_ends cursors (suc fuel) cursor seen neighbors w hands enough =
      let w' : W = (neighbors_page cursor w).1 in
      elim (Result-cases (neighbors_page cursor w).0) [
        | inr (x, e) ↦ ((err x, w'), rw (e, walk_pages) refl)
        | inl (page, e) ↦
            elim (Option-cases (next_pagination_cursor (inserted cursor seen) page.next_cursor)) [
              | inl over ↦ ((ok (neighbors ++ page.items), w'), rw (e, walk_pages) (rw over refl))
              | inr (next, on) ↦
                  let (told, new) =
                    next_pagination_cursor_lem (inserted cursor seen) page.next_cursor next on in
                  let drops : suc (unseen cursors (next ∷ inserted cursor seen))
                      ≤ unseen cursors (inserted cursor seen) =
                    unseen_less cursors (inserted cursor seen) next
                      (hands cursor w page next e told) new in
                  let (r, ends) =
                    walk_pages_ends cursors fuel (some next) (inserted cursor seen)
                      (neighbors ++ page.items) w' hands (omega (arith, drops)) in
                  (r, rw (e, walk_pages) (rw on ends))
            ]
      ]

  -- The walk ends whatever the server does, if the cursors that it hands out are among finitely
  -- many: it makes at most two more requests than there are cursors.
  pub get_neighbor_nodes_ends :
      (cursors : List String) (w : W)
      → HandsOut cursors
      → (r : Result Error (List Neighbor) × W) × (walk_pages neighbors_page
            (length cursors + 2)
            none
            []
            []
            w
          ≡ some r)
  get_neighbor_nodes_ends cursors w hands =
      walk_pages_ends cursors (length cursors + 2) none [] [] w hands
        (omega (arith, unseen-le cursors []))

  -- What a server with a last page holds from a cursor on: the cursors that lead to the last page,
  -- and the items of the pages, empty pages included.
  pub data Reads (serve : Option String → Page Neighbor)
      : Option String → List String → List Neighbor → Type 0 where
    last_page :
        {c : Option String} → (serve c).next_cursor ≡ none → Reads serve c [] (serve c).items
    more_pages :
        {c : Option String} {d : String} {ds : List String} {items : List Neighbor}
        → (serve c).next_cursor ≡ some d
        → Reads serve (some d) ds items
        → Reads serve c (d ∷ ds) ((serve c).items ++ items)

  -- No cursor comes twice, nor one that has been seen.
  abbrev pub IsFresh : List String → List String → Type 0
  IsFresh seen [] = Unit
  IsFresh seen (d ∷ ds) = (contains seen d ≡ false) × IsFresh (d ∷ seen) ds

  walk_pages-Reads :
      (serve : Option String → Page Neighbor)
      → ((c : Option String) (w : W) → (neighbors_page c w).0 ≡ ok (serve c))
      → (cursor : Option String) (ds : List String) (items : List Neighbor)
      → Reads serve cursor ds items
      → (seen : List String) (neighbors : List Neighbor) (w : W) → IsFresh (inserted cursor seen) ds
      → (w' : W) × (walk_pages neighbors_page (suc (length ds)) cursor seen neighbors w
          ≡ some (ok (neighbors ++ items), w'))
  unfolding walk_pages
  walk_pages-Reads serve serves cursor _ _ (last_page none_left) seen neighbors w fresh =
      ((neighbors_page cursor w).1, rw (serves cursor w, walk_pages) (rw none_left refl))
  walk_pages-Reads serve serves cursor _ _ (more_pages {d = d} {ds = ds} {items = items} next rest)
        seen neighbors w fresh =
      let w1 : W = (neighbors_page cursor w).1 in
      let (w', ends) =
        walk_pages-Reads serve serves (some d) ds items rest (inserted cursor seen)
          (neighbors ++ (serve cursor).items) w1 fresh.1 in
      (
        w',
        rw (serves cursor w, walk_pages)
            (rw next (
              rw fresh.0 (
                ends
                ∙ ap (λ l. some (ok l, w')) (append_assoc neighbors (serve cursor).items items)))),
      )

  -- On a server whose pages lead from one to the next and to a last one, no cursor twice, the walk
  -- returns the items of every page in order: an empty or short page does not end it, and it makes
  -- as many requests as there are pages.
  pub get_neighbor_nodes_complete :
      (serve : Option String → Page Neighbor) (ds : List String) (items : List Neighbor) (w : W)
      → ((c : Option String) (w : W) → (neighbors_page c w).0 ≡ ok (serve c))
      → Reads serve none ds items
      → IsFresh [] ds
      → (w' : W) × (walk_pages neighbors_page (suc (length ds)) none [] [] w ≡ some (ok items, w'))
  get_neighbor_nodes_complete serve ds items w serves reads fresh =
      walk_pages-Reads serve serves none ds items reads [] [] w fresh
