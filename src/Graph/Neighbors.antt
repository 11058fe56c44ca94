-- ===== src/Graph/Neighbors.antt =====
-- The methods of `src/graph.rs` that load a node's neighbors.
--
-- `buffered` is the stream combinator of the `futures` crate, collected: it runs a call for each
-- item, so many at a time.
pub mod Complete
mod Tests
use Prim.Native.String.{String}
use rociadb_core_sdk_rust.Prelude.Effect.{◌>>=◌, pure, lift}
use rociadb_core_sdk_rust.Prelude.{ℕ, Option, none, some, List, [], Result, Action, ok, err}
use rociadb_core_sdk_rust.Error.{Error, decode_context}
use rociadb_core_sdk_rust.Client.{RociaDbClient, Page}
use rociadb_core_sdk_rust.Client.Service.{Rpc, Json, send}
use rociadb_core_sdk_rust.Graph.{Neighbor, walk_pages}
use rociadb_core_sdk_rust.Graph.Calls.{NeighborNode, GraphRpcs, neighbors_out, neighbors_in}

abbrev pub neighbor_page_size : ℕ
neighbor_page_size = 50

abbrev pub concurrent_requests : ℕ
concurrent_requests = 10

pub data NeighborDirection : Type 0 where
  outgoing incoming : NeighborDirection

-- `stream::iter(items).map(call).buffered(n).try_collect()`.
abbrev pub Buffered : Type 0 → Type 0 → Type 0 → Type 0
Buffered W A B = ℕ → (A → Action W (Result Error B)) → List A → Action W (Result Error (List B))

module _ {W T : Type 0} (client : RociaDbClient W) (rpcs : GraphRpcs W) (codec : Json T)
    (buffered : Buffered W Neighbor (NeighborNode T)) (tenant_id graph : String) where
  -- The call for one neighbor.
  unfoldable pub fetch_neighbor_node : Neighbor → Action W (Result Error (NeighborNode T))
  fetch_neighbor_node neighbor =
      send client "failed to get neighbor node" rpcs.get_node
        (record { tenant_id = tenant_id; graph = graph; node_id = neighbor.node_id })
      >>= λ response.
          lift (decode_context "neighbor node json" (codec.from_slice response.json)) >>= λ value.
          pure (record { edge_id = neighbor.edge_id; node_id = neighbor.node_id; value = value })

  unfoldable pub fetch_neighbor_nodes :
      List Neighbor → Action W (Result Error (List (NeighborNode T)))
  fetch_neighbor_nodes neighbors = buffered concurrent_requests fetch_neighbor_node neighbors

  abbrev with_nodes : Page Neighbor → Action W (Result Error (Page (NeighborNode T)))
  with_nodes page = fetch_neighbor_nodes page.items >>= λ items.
      pure (record { items = items; next_cursor = page.next_cursor })

  unfoldable pub neighbor_nodes_out :
      String → String → Option ℕ → Option String → Action W (Result Error (Page (NeighborNode T)))
  neighbor_nodes_out node_id label limit cursor =
      neighbors_out client rpcs tenant_id graph node_id label limit cursor >>= λ page.
      with_nodes page

  unfoldable pub neighbor_nodes_in :
      String → String → Option ℕ → Option String → Action W (Result Error (Page (NeighborNode T)))
  neighbor_nodes_in node_id label limit cursor =
      neighbors_in client rpcs tenant_id graph node_id label limit cursor >>= λ page.
      with_nodes page

  -- The request for the next page of the walk.
  abbrev pub neighbors_page :
      NeighborDirection → String → String → Option String → Action W (Result Error (Page Neighbor))
  neighbors_page outgoing node_id label cursor =
      neighbors_out client rpcs tenant_id graph node_id label (some neighbor_page_size) cursor
  neighbors_page incoming node_id label cursor =
      neighbors_in client rpcs tenant_id graph node_id label (some neighbor_page_size) cursor

  -- What follows the walk.
  abbrev pub after_walk :
      Option (Result Error (List Neighbor) × W) → Option (Result Error (List (NeighborNode T)) × W)
  after_walk none = none
  after_walk (some (err e, w)) = some (err e, w)
  after_walk (some (ok neighbors, w)) = some (fetch_neighbor_nodes neighbors w)

  unfoldable pub get_neighbor_nodes :
      ℕ
      → String
      → String
      → NeighborDirection
      → W
      → Option (Result Error (List (NeighborNode T)) × W)
  get_neighbor_nodes fuel node_id label direction w =
      after_walk (walk_pages (neighbors_page direction node_id label) fuel none [] [] w)

  abbrev pub get_outgoing_neighbor_nodes :
      ℕ → String → String → W → Option (Result Error (List (NeighborNode T)) × W)
  get_outgoing_neighbor_nodes fuel node_id label = get_neighbor_nodes fuel node_id label outgoing

  abbrev pub get_incoming_neighbor_nodes :
      ℕ → String → String → W → Option (Result Error (List (NeighborNode T)) × W)
  get_incoming_neighbor_nodes fuel node_id label = get_neighbor_nodes fuel node_id label incoming
