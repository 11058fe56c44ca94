-- ===== src/Graph/Calls.antt =====
-- The methods of `src/graph.rs` that send one RPC: nodes, edges and listings.
use Prim.Native.String.{String}
use rociadb_core_sdk_rust.Prelude.Effect.{◌>>=◌, pure, lift, always}
use rociadb_core_sdk_rust.Prelude.{ℕ, Option, none, some, List, Result, Action, unwrap_or_else}
use rociadb_core_sdk_rust.Error.{Error, encode_context, decode_context}
use rociadb_core_sdk_rust.Client.{RociaDbClient, Page, PageRequest, WriteOptions}
use rociadb_core_sdk_rust.Client.Service.{prefixed, Rpc, Json, PageResponse, send, list_page}
use rociadb_core_sdk_rust.Graph.{
  NodeInput, EdgeInput, Neighbor, PutNodeRequest, AddEdgeRequest, build_add_edge_request,
}

pub record NeighborNode (T : Type 0) : Type 0 where
  pub edge_id : String
  pub node_id : String
  pub value : T

pub record Edge (T : Type 0) : Type 0 where
  pub edge_id : String
  pub from : String
  pub to : String
  pub label : String
  pub value : T

abbrev pub new_node : {Value : Type 0} → String → Value → NodeInput Value
new_node node_id value = record { node_id = node_id; value = value; request_id = none }

abbrev pub node_with_request_id : {Value : Type 0} → String → NodeInput Value → NodeInput Value
node_with_request_id id node = record node { request_id = some id }

abbrev pub new_edge : {Value : Type 0} → String → String → String → String → Value → EdgeInput Value
new_edge edge_id from to label value = record {
  edge_id = edge_id;
  from = from;
  to = to;
  label = label;
  value = value;
  request_id = none;
}

abbrev pub edge_with_request_id : {Value : Type 0} → String → EdgeInput Value → EdgeInput Value
edge_with_request_id id edge = record edge { request_id = some id }

pub record GetNodeRequest : Type 0 where
  pub tenant_id : String
  pub graph : String
  pub node_id : String

pub record GetNodeResponse : Type 0 where
  pub json : List ℕ

pub record GetEdgeRequest : Type 0 where
  pub tenant_id : String
  pub graph : String
  pub edge_id : String

pub record GetEdgeResponse : Type 0 where
  pub from : String
  pub to : String
  pub label : String
  pub json : List ℕ

pub record DeleteEdgeRequest : Type 0 where
  pub tenant_id : String
  pub graph : String
  pub edge_id : String
  pub request_id : String

-- `pb::NeighborsOutRequest` and `pb::NeighborsInRequest`: `node` is `from` or `to`.
pub record NeighborsRequest : Type 0 where
  pub tenant_id : String
  pub graph : String
  pub node : String
  pub label : String
  pub page : Option PageRequest

pub record NeighborsResponse : Type 0 where
  pub neighbors : List Neighbor
  pub page : Option PageResponse

pub record ListGraphsRequest : Type 0 where
  pub tenant_id : String
  pub page : Option PageRequest

pub record ListNodesRequest : Type 0 where
  pub tenant_id : String
  pub graph : String
  pub page : Option PageRequest

-- `pb::ListGraphsResponse` and `pb::ListNodesResponse`: `names` is `graphs` or `node_ids`.
pub record NamesResponse : Type 0 where
  pub names : List String
  pub page : Option PageResponse

pub record GraphRpcs (W : Type 0) : Type 0 where
  pub get_node : Rpc W GetNodeRequest GetNodeResponse
  pub get_edge : Rpc W GetEdgeRequest GetEdgeResponse
  pub put_node : Rpc W PutNodeRequest (Unit {0})
  pub add_edge : Rpc W AddEdgeRequest (Unit {0})
  pub delete_edge : Rpc W DeleteEdgeRequest (Unit {0})
  pub neighbors_out : Rpc W NeighborsRequest NeighborsResponse
  pub neighbors_in : Rpc W NeighborsRequest NeighborsResponse
  pub list_graphs : Rpc W ListGraphsRequest NamesResponse
  pub list_nodes : Rpc W ListNodesRequest NamesResponse

-- A default request id ends in the UUID that `uuid` draws.
module _ {W : Type 0} (uuid : Action W String) where
  abbrev pub default_put_node_request_id : Action W String
  default_put_node_request_id = prefixed "put_node:" uuid

  abbrev pub default_add_edge_request_id : Action W String
  default_add_edge_request_id = prefixed "add_edge:" uuid

  abbrev pub default_delete_edge_request_id : Action W String
  default_delete_edge_request_id = prefixed "delete_edge:" uuid

abbrev pub edge_from_response : {T : Type 0} → String → GetEdgeResponse → T → Edge T
edge_from_response edge_id response value = record {
  edge_id = edge_id;
  from = response.from;
  to = response.to;
  label = response.label;
  value = value;
}

module _ {W T : Type 0} (client : RociaDbClient W) (rpcs : GraphRpcs W) (uuid : Action W String)
    (codec : Json T) (tenant_id graph : String) where
  unfoldable pub get_node : String → Action W (Result Error T)
  get_node node_id =
      send client "failed to load node" rpcs.get_node
        (record { tenant_id = tenant_id; graph = graph; node_id = node_id })
      >>= λ response. lift (decode_context "node json" (codec.from_slice response.json))

  unfoldable pub get_edge : String → Action W (Result Error (Edge T))
  get_edge edge_id =
      send client "failed to load edge" rpcs.get_edge
        (record { tenant_id = tenant_id; graph = graph; edge_id = edge_id })
      >>= λ response.
          lift (decode_context "edge json" (codec.from_slice response.json)) >>= λ value.
          pure (edge_from_response edge_id response value)

  unfoldable pub put_node : String → T → WriteOptions → Action W (Result Error (Unit {0}))
  put_node node_id value options =
      lift (encode_context "node json" (codec.to_vec value)) >>= λ json.
      always (unwrap_or_else options.request_id (default_put_node_request_id uuid))
      >>= λ request_id.
          send client "failed to upsert node" rpcs.put_node (record {
            tenant_id = tenant_id;
            graph = graph;
            node_id = node_id;
            json = json;
            request_id = request_id;
          })
          >>= λ u. pure tt

  unfoldable pub add_edge : EdgeInput T → Action W (Result Error (Unit {0}))
  add_edge edge =
      build_add_edge_request codec.to_vec (default_add_edge_request_id uuid) tenant_id graph edge
      >>= λ request. send client "failed to add edge" rpcs.add_edge request >>= λ u. pure tt

module _ {W : Type 0} (client : RociaDbClient W) (rpcs : GraphRpcs W) where
  unfoldable pub delete_edge :
      Action W String → String → String → String → WriteOptions → Action W (Result Error (Unit {0}))
  delete_edge uuid tenant_id graph edge_id options =
      always (unwrap_or_else options.request_id (default_delete_edge_request_id uuid))
      >>= λ request_id.
          send client "failed to delete edge" rpcs.delete_edge (record {
            tenant_id = tenant_id;
            graph = graph;
            edge_id = edge_id;
            request_id = request_id;
          })
          >>= λ u. pure tt

  unfoldable pub list_graphs :
      String → Option ℕ → Option String → Action W (Result Error (Page String))
  list_graphs tenant_id limit cursor =
      list_page client "failed to list graphs" rpcs.list_graphs
        (λ page. record { tenant_id = tenant_id; page = page }) (λ response. response.names)
        (λ response. response.page) limit cursor

  unfoldable pub list_nodes :
      String → String → Option ℕ → Option String → Action W (Result Error (Page String))
  list_nodes tenant_id graph limit cursor =
      list_page client "failed to list nodes" rpcs.list_nodes
        (λ page. record { tenant_id = tenant_id; graph = graph; page = page })
        (λ response. response.names) (λ response. response.page) limit cursor

  unfoldable pub neighbors_out :
      String
      → String
      → String
      → String
      → Option ℕ
      → Option String
      → Action W (Result Error (Page Neighbor))
  neighbors_out tenant_id graph from label limit cursor =
      list_page client "failed to get outgoing neighbors" rpcs.neighbors_out
        (λ page. record {
          tenant_id = tenant_id;
          graph = graph;
          node = from;
          label = label;
          page = page;
        })
        (λ response. response.neighbors) (λ response. response.page) limit cursor

  unfoldable pub neighbors_in :
      String
      → String
      → String
      → String
      → Option ℕ
      → Option String
      → Action W (Result Error (Page Neighbor))
  neighbors_in tenant_id graph to label limit cursor =
      list_page client "failed to get incoming neighbors" rpcs.neighbors_in
        (λ page. record {
          tenant_id = tenant_id;
          graph = graph;
          node = to;
          label = label;
          page = page;
        })
        (λ response. response.neighbors) (λ response. response.page) limit cursor
