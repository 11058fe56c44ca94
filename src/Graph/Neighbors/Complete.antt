-- ===== src/Graph/Neighbors/Complete.antt =====
-- `get_neighbor_nodes` of `src/graph.rs` as a whole: the walk over the pages, and then the nodes.
use Prim.Native.String.{String}
use rociadb_core_sdk_rust.Prelude.Effect.{◌>>=◌}
use rociadb_core_sdk_rust.Prelude.{
  ℕ, suc, ◌≡◌, refl, ap, ◌∙◌, Option, none, some, List, [], map, unwrap_or, length, Result, Action,
  collect, collect-ok, ok,
}
use rociadb_core_sdk_rust.Error.{Error}
use rociadb_core_sdk_rust.Client.{RociaDbClient, Page, page_request}
use rociadb_core_sdk_rust.Client.Service.{Rpc, Json, cursor_of}
use rociadb_core_sdk_rust.Client.Contract.{Answering, send_answers}
use rociadb_core_sdk_rust.Graph.{Neighbor}
use rociadb_core_sdk_rust.Graph.Paging.{Reads, IsFresh, get_neighbor_nodes_complete}
use rociadb_core_sdk_rust.Graph.Calls.{
  NeighborNode, GraphRpcs, NeighborsRequest, NeighborsResponse, neighbors_out, neighbors_in,
}
use rociadb_core_sdk_rust.Graph.Neighbors.{
  NeighborDirection, outgoing, incoming, Buffered, neighbor_page_size, concurrent_requests,
  fetch_neighbor_node, fetch_neighbor_nodes, neighbors_page, get_neighbor_nodes,
}

-- What `buffered` and `try_collect` promise: the answers in the order of the items, or the first
-- error in that order. It is said for calls whose answers do not depend on the world.
abbrev pub IsInOrder : {W A B : Type 0} → Buffered W A B → Type 0
IsInOrder {W} {A} {B} buffered =
    (limit : ℕ) (call : A → Action W (Result Error B)) (answer : A → Result Error B)
    → ((a : A) (w : W) → (call a w).0 ≡ answer a)
    → (items : List A) (w : W) → (buffered limit call items w).0 ≡ collect answer items

abbrev pub neighbors_rpc :
    {W : Type 0} → GraphRpcs W → NeighborDirection → Rpc W NeighborsRequest NeighborsResponse
neighbors_rpc rpcs outgoing = rpcs.neighbors_out
neighbors_rpc rpcs incoming = rpcs.neighbors_in

-- The page that an answer holds.
abbrev pub page_of : NeighborsResponse → Page Neighbor
page_of response = record { items = response.neighbors; next_cursor = cursor_of response.page }

abbrev pub with_value : {T : Type 0} → (String → T) → Neighbor → NeighborNode T
with_value value neighbor = record {
  edge_id = neighbor.edge_id;
  node_id = neighbor.node_id;
  value = value neighbor.node_id;
}

module _ {W T : Type 0} (client : RociaDbClient W) (rpcs : GraphRpcs W) (codec : Json T)
    (buffered : Buffered W Neighbor (NeighborNode T)) (tenant_id graph node_id label : String) where
  -- The walk's request with a cursor.
  abbrev pub page_message : Option String → NeighborsRequest
  page_message cursor = record {
    tenant_id = tenant_id;
    graph = graph;
    node = node_id;
    label = label;
    page = some (record { limit = some neighbor_page_size; cursor = unwrap_or cursor "" });
  }

  neighbors_page_answers :
      (direction : NeighborDirection) (respond : Option String → NeighborsResponse)
      → ((c : Option String)
          → Answering (neighbors_rpc rpcs direction) (page_message c) (respond c))
      → (c : Option String) (w : W)
      → (neighbors_page client rpcs codec buffered tenant_id graph direction node_id label c w).0
        ≡ ok (page_of (respond c))
  unfolding neighbors_out neighbors_in page_request
  neighbors_page_answers outgoing respond answering c w =
      rw
        (
          send_answers client rpcs.neighbors_out _ _ (answering c)
              "failed to get outgoing neighbors" w,
          ◌>>=◌,
        )
        refl
  neighbors_page_answers incoming respond answering c w =
      rw
        (
          send_answers client rpcs.neighbors_in _ _ (answering c) "failed to get incoming neighbors"
              w,
          ◌>>=◌,
        )
        refl

  fetch_answers :
      (stored : String → List ℕ) (value : String → T)
      → ((id : String)
          → Answering rpcs.get_node
              (record { tenant_id = tenant_id; graph = graph; node_id = id })
              (record { json = stored id }))
      → ((id : String) → codec.from_slice (stored id) ≡ ok (value id))
      → (neighbor : Neighbor) (w : W)
      → (fetch_neighbor_node client rpcs codec buffered tenant_id graph neighbor w).0
        ≡ ok (with_value value neighbor)
  unfolding fetch_neighbor_node
  fetch_answers stored value answering reads neighbor w =
      rw
        (
          send_answers client rpcs.get_node _ _ (answering neighbor.node_id)
              "failed to get neighbor node" w,
          ◌>>=◌,
        )
        (rw (reads neighbor.node_id) refl)

  -- On a server whose pages lead from one to the next and to a last one, no cursor twice, and that
  -- holds every node, get_neighbor_nodes returns the neighbors of every page, in order, each with its
  -- edge, its id and the value that is read from its node. `buffered` must answer in order.
  pub get_neighbor_nodes-with_value :
      (direction : NeighborDirection) (respond : Option String → NeighborsResponse)
      (stored : String → List ℕ) (value : String → T) (ds : List String) (items : List Neighbor)
      (w : W)
      → IsInOrder buffered
      → ((c : Option String)
          → Answering (neighbors_rpc rpcs direction) (page_message c) (respond c))
      → ((id : String)
          → Answering rpcs.get_node
              (record { tenant_id = tenant_id; graph = graph; node_id = id })
              (record { json = stored id }))
      → ((id : String) → codec.from_slice (stored id) ≡ ok (value id))
      → Reads
          (neighbors_page client rpcs codec buffered tenant_id graph direction node_id label)
          (λ c. page_of (respond c))
          none
          ds
          items
      → IsFresh
          (neighbors_page client rpcs codec buffered tenant_id graph direction node_id label)
          []
          ds
      → (w' : W) × (get_neighbor_nodes client rpcs codec buffered tenant_id graph
            (suc (length ds))
            node_id
            label
            direction
            w
          ≡ some (ok (map (with_value value) items), w'))
  unfolding get_neighbor_nodes fetch_neighbor_nodes
  get_neighbor_nodes-with_value direction respond stored value ds items w in_order pages nodes reads
        chain fresh =
      let (w1, walked) =
        get_neighbor_nodes_complete
          (neighbors_page client rpcs codec buffered tenant_id graph direction node_id label)
          (λ c. page_of (respond c)) ds items w (neighbors_page_answers direction respond pages)
          chain fresh in
      let call : Neighbor → Action W (Result Error (NeighborNode T)) =
        fetch_neighbor_node client rpcs codec buffered tenant_id graph in
      let loaded : (buffered concurrent_requests call items w1).0
          ≡ ok (map (with_value value) items) =
        in_order concurrent_requests call (λ n. ok (with_value value n))
          (fetch_answers stored value nodes reads) items w1
        ∙ collect-ok (with_value value) items in
      (
        (buffered concurrent_requests call items w1).1,
        rw walked (ap (λ r. some (r, (buffered concurrent_requests call items w1).1)) loaded),
      )
