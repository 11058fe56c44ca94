-- ===== src/Graph/Batch.antt =====
-- The batch writes of `src/graph.rs`.
--
-- `try_for_each_concurrent` is the stream combinator of the `futures` crate. A task is what its body
-- makes of one group: one call after the other, up to the first that fails. The calls of different
-- tasks may come in any order; a call, with its refresh and replay, is one action.
pub mod Order
pub mod History
mod Tests
use Prim.Native.String.{String}
use rociadb_core_sdk_rust.Prelude.Effect.{◌>>=◌}
use rociadb_core_sdk_rust.Prelude.{ℕ, List, map, Result, Action}
use rociadb_core_sdk_rust.Error.{Error}
use rociadb_core_sdk_rust.Client.{RociaDbClient}
use rociadb_core_sdk_rust.Client.Service.{Json, send}
use rociadb_core_sdk_rust.Graph.{
  NodeInput, EdgeInput, PutNodeRequest, AddEdgeRequest, build_put_node_requests,
  build_add_edge_requests, group_preserving_order,
}
use rociadb_core_sdk_rust.Graph.Calls.{
  GraphRpcs, default_put_node_request_id, default_add_edge_request_id,
}
use rociadb_core_sdk_rust.Graph.Neighbors.{concurrent_requests}

abbrev pub Task : Type 0 → Type 0
Task W = List (Action W (Result Error (Unit {0})))

-- `stream::iter(tasks).try_for_each_concurrent(limit, ..)`.
abbrev pub TryForEach : Type 0 → Type 0
TryForEach W = ℕ → List (Task W) → Action W (Result Error (Unit {0}))

-- `for item in group { call(item).await?; }`.
abbrev pub one_by_one : {W A : Type 0} → (A → Action W (Result Error (Unit {0}))) → List A → Task W
one_by_one call group = map call group

module _ {W Value : Type 0} (client : RociaDbClient W) (rpcs : GraphRpcs W) (uuid : Action W String)
    (codec : Json Value) (try_for_each_concurrent : TryForEach W) (tenant_id graph : String) where
  unfoldable pub put_nodes : List (NodeInput Value) → Action W (Result Error (Unit {0}))
  put_nodes nodes =
      build_put_node_requests codec.to_vec (default_put_node_request_id uuid) tenant_id graph nodes
      >>= λ requests. try_for_each_concurrent concurrent_requests (
          map (one_by_one (send client "failed to upsert node" rpcs.put_node))
            (group_preserving_order (λ request. request.node_id) requests))

  unfoldable pub add_edges : List (EdgeInput Value) → Action W (Result Error (Unit {0}))
  add_edges edges =
      build_add_edge_requests codec.to_vec (default_add_edge_request_id uuid) tenant_id graph edges
      >>= λ requests. try_for_each_concurrent concurrent_requests (
          map (one_by_one (send client "failed to add edge" rpcs.add_edge))
            (group_preserving_order (λ request. request.edge_id) requests))
