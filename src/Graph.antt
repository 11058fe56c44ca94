-- ===== src/Graph.antt =====
-- `src/graph.rs`: the requests of the batch writes, their grouping, and the walk over the pages of
-- a node's neighbors.
--
-- A JSON value is a member of the type `Value`, which `serde_json` writes as bytes: its two
-- functions and the generator of request ids are arguments, and so are the RPCs, as actions on a
-- world. The hash map of `group_preserving_order` is an association list. Its order is that of the keys'
-- first items, while a `HashMap` promises none.
pub mod Groups
pub mod Paging
pub mod Separate
pub mod Schedule
pub mod Calls
pub mod Neighbors
pub mod Batch
mod Tests
use Prim.Native.String.{String}
use text.Mathlib.Text.{◌==◌}
use rociadb_core_sdk_rust.Prelude.{
  ℕ, zero, suc, Bool, true, false, not, Option, none, some, List, [], ◌∷◌, ◌++◌, map, if◌then◌else◌,
  Result, Action, and_then, unwrap_or_else, ok, err,
}
use rociadb_core_sdk_rust.Error.{Error, Source, encode_context}
use rociadb_core_sdk_rust.Client.{Page}

pub record NodeInput (Value : Type 0) : Type 0 where
  pub node_id : String
  pub value : Value
  pub request_id : Option String

pub record EdgeInput (Value : Type 0) : Type 0 where
  pub edge_id : String
  pub from : String
  pub to : String
  pub label : String
  pub value : Value
  pub request_id : Option String

pub record Neighbor : Type 0 where
  pub edge_id : String
  pub node_id : String

pub record PutNodeRequest : Type 0 where
  pub tenant_id : String
  pub graph : String
  pub node_id : String
  pub json : List ℕ
  pub request_id : String

pub record AddEdgeRequest : Type 0 where
  pub tenant_id : String
  pub graph : String
  pub edge_id : String
  pub from : String
  pub to : String
  pub label : String
  pub json : List ℕ
  pub request_id : String

-- `into_iter().map(f).collect::<Result<Vec<_>, _>>()` for an `f` that draws from the world: it stops
-- at the first error.
abbrev pub collect_with :
    {W A B : Type 0} → (A → Action W (Result Error B)) → List A → Action W (Result Error (List B))
collect_with f [] w = (ok [], w)
collect_with f (a ∷ rest) w =
    and_then (f a) (λ b. and_then (collect_with f rest) (λ bs w'. (ok (b ∷ bs), w'))) w

module _ {Value W : Type 0} (to_vec : Value → Result Source (List ℕ))
    (new_request_id : Action W String) (tenant_id graph : String) where
  abbrev pub build_put_node_request : NodeInput Value → Action W (Result Error PutNodeRequest)
  build_put_node_request node w = elim (encode_context "node json" (to_vec node.value)) [
    | err e ↦ (err e, w)
    | ok json ↦
        let (request_id, w') = unwrap_or_else node.request_id new_request_id w in
        (
          ok (record {
            tenant_id = tenant_id;
            graph = graph;
            node_id = node.node_id;
            json = json;
            request_id = request_id;
          }),
          w',
        )
  ]

  abbrev pub build_put_node_requests :
      List (NodeInput Value) → Action W (Result Error (List PutNodeRequest))
  build_put_node_requests nodes = collect_with build_put_node_request nodes

  abbrev pub build_add_edge_request : EdgeInput Value → Action W (Result Error AddEdgeRequest)
  build_add_edge_request edge w = elim (encode_context "edge json" (to_vec edge.value)) [
    | err e ↦ (err e, w)
    | ok json ↦
        let (request_id, w') = unwrap_or_else edge.request_id new_request_id w in
        (
          ok (record {
            tenant_id = tenant_id;
            graph = graph;
            edge_id = edge.edge_id;
            from = edge.from;
            to = edge.to;
            label = edge.label;
            json = json;
            request_id = request_id;
          }),
          w',
        )
  ]

  abbrev pub build_add_edge_requests :
      List (EdgeInput Value) → Action W (Result Error (List AddEdgeRequest))
  build_add_edge_requests edges = collect_with build_add_edge_request edges

module _ {T : Type 0} (key : T → String) where
  -- `groups.entry(key).or_default().push(item)`.
  abbrev pub push_under : String → T → List (String × List T) → List (String × List T)
  push_under k item [] = (k, item ∷ []) ∷ []
  push_under k item ((l, group) ∷ groups) =
      let rest = push_under k item groups in
      if l == k then (l, group ++ item ∷ []) ∷ groups else (l, group) ∷ rest

  -- The loop over the items, from the groups so far.
  abbrev pub grouped : List T → List (String × List T) → List (String × List T)
  grouped [] groups = groups
  grouped (item ∷ items) groups = grouped items (push_under (key item) item groups)

  unfoldable pub group_preserving_order : List T → List (List T)
  group_preserving_order items = map (λ g. g.1) (grouped items [])

abbrev pub contains : List String → String → Bool
contains [] c = false
contains (s ∷ seen) c = if s == c then true else contains seen c

abbrev pub next_pagination_cursor : List String → Option String → Option String
next_pagination_cursor seen_cursors none = none
next_pagination_cursor seen_cursors (some next) =
    if not (contains seen_cursors next) then some next else none

-- `seen_cursors.insert`, of the cursor that the round is about to use.
abbrev pub inserted : Option String → List String → List String
inserted none seen = seen
inserted (some c) seen = c ∷ seen

module _ {W : Type 0}
    (neighbors_page : Option String → Action W (Result Error (Page Neighbor))) where
  -- The loop of `get_neighbor_nodes` over the pages, in the direction that `neighbors_page` reads.
  -- `none` is the fuel running out.
  unfoldable pub walk_pages :
      ℕ
      → Option String
      → List String
      → List Neighbor
      → W
      → Option (Result Error (List Neighbor) × W)
  walk_pages zero cursor seen_cursors neighbors w = none
  walk_pages (suc fuel) cursor seen_cursors neighbors w =
      let seen = inserted cursor seen_cursors in
      let (answer, w') = neighbors_page cursor w in
      elim answer [
        | err e ↦ some (err e, w')
        | ok page ↦ elim (next_pagination_cursor seen page.next_cursor) [
          | none ↦ some (ok (neighbors ++ page.items), w')
          | some next ↦ walk_pages fuel (some next) seen (neighbors ++ page.items) w'
        ]
      ]
