-- ===== src/Graph/Neighbors/Tests.antt =====
-- A walk over two pages of neighbors, with the values of their nodes.
use Prim.Native.String.{String}
use text.Mathlib.Text.{◌==◌}
use rociadb_core_sdk_rust.Prelude.{
  ℕ, suc, ◌+◌, ◌≡◌, refl, inl, inr, none, some, List, [], ◌∷◌, if◌then◌else◌, length, Result,
  Result-cases, and_then, collect, ok, err,
}
use rociadb_core_sdk_rust.Error.{Source}
use rociadb_core_sdk_rust.Client.{RociaDbClient}
use rociadb_core_sdk_rust.Client.Service.{Rpc, Json}
use rociadb_core_sdk_rust.Graph.{Neighbor, collect_with}
use rociadb_core_sdk_rust.Graph.Paging.{last_page, more_pages}
use rociadb_core_sdk_rust.Graph.Calls.{NeighborsRequest, NeighborsResponse, GraphRpcs}
use rociadb_core_sdk_rust.Graph.Neighbors.{Buffered, outgoing, get_neighbor_nodes}
use rociadb_core_sdk_rust.Graph.Neighbors.Complete.{
  IsInOrder, page_message, get_neighbor_nodes-with_value,
}

-- One call after the other.
abbrev in_turn : {W A B : Type 0} → Buffered W A B
in_turn limit call items = collect_with call items

in_turn-IsInOrder : {W A B : Type 0} → IsInOrder (in_turn {W = W} {A = A} {B = B})
unfolding collect
in_turn-IsInOrder limit call answer agree [] w = refl
in_turn-IsInOrder limit call answer agree (a ∷ rest) w =
    let more : (collect_with call rest (call a w).1).0 ≡ collect answer rest =
      in_turn-IsInOrder limit call answer agree rest (call a w).1 in
    elim (Result-cases (answer a)) [
      | inr (e, bad) ↦ rw (agree a w, bad, collect_with, and_then) refl
      | inl (b, good) ↦ elim (Result-cases (collect answer rest)) [
        | inr (e, bad) ↦
            rw (agree a w, good, collect_with, and_then) (rw (more, bad, and_then) refl)
        | inl (bs, all) ↦
            rw (agree a w, good, collect_with, and_then) (rw (more, all, and_then) refl)
      ]
    ]

-- A method that answers in time.
abbrev answering : {Req Resp : Type 0} → (Req → Resp) → Rpc ℕ Req Resp
answering f = record {
  call = λ r w. (ok (f r.message), w + 1);
  deadline = λ t r w. (some (ok (f r.message)), w + 1);
}

abbrev first_edge : Neighbor
first_edge = record { edge_id = "e1"; node_id = "n1" }

abbrev second_edge : Neighbor
second_edge = record { edge_id = "e2"; node_id = "n2" }

abbrev cursor_in : NeighborsRequest → String
cursor_in r = elim r.page [ none ↦ "" | some page ↦ page.cursor ]

abbrev page_at : NeighborsRequest → NeighborsResponse
page_at r =
    if cursor_in r == ""
    then record { neighbors = first_edge ∷ []; page = some (record { next_cursor = "c" }) }
    else record { neighbors = second_edge ∷ []; page = none }

abbrev value_of : String → ℕ
value_of id = if id == "n1" then 1 else 2

abbrev rpcs : GraphRpcs ℕ
rpcs = record {
  get_node = answering (λ r. record { json = value_of r.node_id ∷ [] });
  get_edge = answering (λ r. record { from = "a"; to = "b"; label = "knows"; json = [] });
  put_node = answering (λ r. tt);
  add_edge = answering (λ r. tt);
  delete_edge = answering (λ r. tt);
  neighbors_out = answering page_at;
  neighbors_in = answering page_at;
  list_graphs = answering (λ r. record { names = []; page = none });
  list_nodes = answering (λ r. record { names = []; page = none });
}

abbrev client : RociaDbClient ℕ
client = record {
  host = "http://127.0.0.1:50051";
  request_timeout = none;
  max_file_bytes = 1024;
  token_manager = none;
}

abbrev read_one : List ℕ → Result Source ℕ
read_one (n ∷ []) = ok n
read_one _ = err 7

abbrev numbers : Json ℕ
numbers = record { to_vec = λ n. ok (n ∷ []); from_slice = read_one }

abbrev cursors : List String
cursors = "c" ∷ []

get_neighbor_nodes-with_value_example :
    (w' : ℕ) × (get_neighbor_nodes client rpcs numbers in_turn "t" "g"
        (suc (length cursors))
        "n0"
        "knows"
        outgoing
        0
      ≡ some (
        ok (
            record { edge_id = "e1"; node_id = "n1"; value = 1 }
            ∷ record { edge_id = "e2"; node_id = "n2"; value = 2 }
            ∷ []),
        w',
      ))
get_neighbor_nodes-with_value_example =
    get_neighbor_nodes-with_value client rpcs numbers in_turn "t" "g" "n0" "knows" outgoing
      (λ c. page_at (page_message client rpcs numbers in_turn "t" "g" "n0" "knows" c))
      (λ id. value_of id ∷ []) value_of cursors (first_edge ∷ second_edge ∷ []) 0 in_turn-IsInOrder
      (λ c. record { called = λ t w. refl; timed = λ t w. refl })
      (λ id. record { called = λ t w. refl; timed = λ t w. refl }) (λ id. refl)
      (more_pages refl (last_page refl)) (refl, tt)
