-- ===== src/Graph/Tests.antt =====
-- Runs of the graph code, and its theorems at concrete inputs.
use Prim.Native.String.{String}
use mathlib.Core.Path.{subst}
use rociadb_core_sdk_rust.Prelude.{
  ℕ, suc, ◌+◌, ◌≡◌, refl, ap, ◌∙◌, true, Option, none, some, List, [], ◌∷◌, if◌then◌else◌,
  unwrap_or, length, Result, ok, err,
}
use rociadb_core_sdk_rust.Error.{Error}
use rociadb_core_sdk_rust.Client.{Page}
use rociadb_core_sdk_rust.Graph.{Neighbor, contains, group_preserving_order, walk_pages}
use rociadb_core_sdk_rust.Graph.Paging.{get_neighbor_nodes_ends}

abbrev Keyed : Type 0
Keyed = String × ℕ

abbrev keyed : List Keyed
keyed = ("a", 1) ∷ ("b", 2) ∷ ("a", 3) ∷ []

abbrev key : Keyed → String
key item = item.0

groups : group_preserving_order key keyed ≡ (("a", 1) ∷ ("a", 3) ∷ []) ∷ (("b", 2) ∷ []) ∷ []
unfolding group_preserving_order
groups = refl

abbrev first_edge : Neighbor
first_edge = record { edge_id = "e1"; node_id = "n1" }

abbrev second_edge : Neighbor
second_edge = record { edge_id = "e2"; node_id = "n2" }

abbrev one_cursor : List String
one_cursor = "c1" ∷ []

abbrev two_cursors : List String
two_cursors = "c1" ∷ "c2" ∷ []

-- Three pages, the second of them empty.
abbrev serve : Option String → Page Neighbor
serve none = record { items = first_edge ∷ []; next_cursor = some "c1" }
serve (some c) =
    if contains one_cursor c
    then record { items = []; next_cursor = some "c2" }
    else record { items = second_edge ∷ []; next_cursor = none }

abbrev neighbors_page : Option String → ℕ → Result Error (Page Neighbor) × ℕ
neighbors_page c w = (ok (serve c), w + 1)

-- A server that hands out the same cursor for ever.
abbrev stuck_page : Option String → ℕ → Result Error (Page Neighbor) × ℕ
stuck_page c w = (ok (record { items = first_edge ∷ []; next_cursor = some "c1" }), w + 1)

stuck : walk_pages stuck_page 3 none [] [] 0 ≡ some (ok (first_edge ∷ first_edge ∷ []), 2)
unfolding walk_pages
stuck = refl

abbrev next_of : Result Error (Page Neighbor) → Option String
next_of (ok p) = p.next_cursor
next_of (err e) = none

get_neighbor_nodes_ends_example :
    (r : Result Error (List Neighbor) × ℕ) × (walk_pages stuck_page
        (length one_cursor + 2)
        none
        []
        []
        0
      ≡ some r)
get_neighbor_nodes_ends_example =
    get_neighbor_nodes_ends stuck_page one_cursor 0 (λ c w p next h told.
      subst (λ o. contains one_cursor (unwrap_or o "") ≡ true) (ap next_of h ∙ told) refl)

all_pages :
    walk_pages neighbors_page (suc (length two_cursors)) none [] [] 0
    ≡ some (ok (first_edge ∷ second_edge ∷ []), 3)
unfolding walk_pages
all_pages = refl
