-- ===== src/Graph/Batch/Order.antt =====
-- In which order the batch writes of `src/graph.rs` write what they are given.
use Prim.Native.String.{String}
use mathlib.Core.Path.{subst}
use rociadb_core_sdk_rust.Prelude.Effect.{◌>>=◌}
use rociadb_core_sdk_rust.Prelude.{
  ℕ, ◌≡◌, refl, sym, ◌∙◌, inl, inr, List, [], ◌∷◌, map, arith, Option-cases, Result, Result-cases,
  Action, and_then, ok, err,
}
use rociadb_core_sdk_rust.Error.{Error, Source, encode_context}
use rociadb_core_sdk_rust.Client.{RociaDbClient}
use rociadb_core_sdk_rust.Client.Service.{Rpc, Json, send}
use rociadb_core_sdk_rust.Client.Sends.{Recorded, RefreshesApart, send_logs}
use rociadb_core_sdk_rust.Graph.{
  NodeInput, EdgeInput, PutNodeRequest, AddEdgeRequest, collect_with, build_put_node_request,
  build_put_node_requests, build_add_edge_request, build_add_edge_requests, group_preserving_order,
}
use rociadb_core_sdk_rust.Graph.Groups.{of_key}
use rociadb_core_sdk_rust.Graph.Separate.{
  group_preserving_order-IsSole, of_key-group_preserving_order,
}
use rociadb_core_sdk_rust.Graph.Schedule.{IsConcurrent, Written, Interleaved-Written}
use rociadb_core_sdk_rust.Graph.Calls.{
  GraphRpcs, default_put_node_request_id, default_add_edge_request_id,
}
use rociadb_core_sdk_rust.Graph.Neighbors.{concurrent_requests}
use rociadb_core_sdk_rust.Graph.Batch.{TryForEach, one_by_one, put_nodes, add_edges}

-- `log` reads off a world the messages of one RPC that were sent. A token refresh and a UUID add
-- none.
pub record BatchLog {W Req Resp : Type 0} (client : RociaDbClient W) (rpc : Rpc W Req Resp)
    (uuid : Action W String) : Type 0 where
  pub log : W → List Req
  pub recorded : Recorded client rpc log (λ request. request)
  pub refresh_apart : RefreshesApart client log
  pub uuid_apart : (w : W) → log (uuid w).1 ≡ log w

-- How a batch may go: nothing was sent, since an item cannot be encoded; or the messages of each key
-- were sent in the order of the items.
pub data BatchOutcome {Req : Type 0} (key : Req → String) (ids : List String)
    (built : Result Error (List Req)) (before after : List Req) (answer : Result Error (Unit {0}))
    : Type 0 where
  not_built :
      (e : Error)
      → built ≡ err e
      → answer ≡ err e
      → after ≡ before
      → BatchOutcome key ids built before after answer
  sent_in_order :
      (requests : List Req)
      → built ≡ ok requests
      → map key requests ≡ ids
      → ((k : String)
          → Written (of_key key k requests) (of_key key k before) (of_key key k after) answer)
      → BatchOutcome key ids built before after answer

module _ {W A B : Type 0} (build : A → Action W (Result Error B)) where
  collect_with-apart :
      {L : Type 0} (log : W → L)
      → ((a : A) (w : W) → log (build a w).1 ≡ log w)
      → (items : List A) (w : W) → log (collect_with build items w).1 ≡ log w
  collect_with-apart log apart [] w = refl
  collect_with-apart log apart (a ∷ rest) w =
      let (first, w') = build a w in
      let same : log (collect_with build rest w').1 ≡ log w =
        collect_with-apart log apart rest w' ∙ apart a w in
      elim (Result-cases first) [
        | inr (e, bad) ↦ rw (bad, collect_with, and_then) (apart a w)
        | inl (b, good) ↦ elim (Result-cases (collect_with build rest w').0) [
          | inr (e, bad) ↦ rw (good, collect_with, and_then) (rw (bad, and_then) same)
          | inl (bs, more) ↦ rw (good, collect_with, and_then) (rw (more, and_then) same)
        ]
      ]

  collect_with-map :
      {C : Type 0} (f : A → C) (g : B → C)
      → ((a : A) (w : W) (b : B) → (build a w).0 ≡ ok b → g b ≡ f a)
      → (items : List A) (w : W) (bs : List B) → (collect_with build items w).0 ≡ ok bs
      → map g bs ≡ map f items
  collect_with-map f g agree [] w bs made =
      let none_made : [] ≡ bs = cc made in rw (sym none_made) refl
  collect_with-map f g agree (a ∷ rest) w bs made =
      let (first, w') = build a w in
      elim (Result-cases first) [
        | inr (e, bad) ↦ absurd (ground arith)
        | inl (b, good) ↦ elim (Result-cases (collect_with build rest w').0) [
          | inr (e, bad) ↦ absurd (ground arith)
          | inl (others, more) ↦
              let all : b ∷ others ≡ bs = ground arith in
              rw (sym all)
                (rw (agree a w b good, collect_with-map f g agree rest w' others more) refl)
        ]
      ]

module _ {Value W : Type 0} (to_vec : Value → Result Source (List ℕ)) (new_id : Action W String)
    (tenant_id graph : String) where
  build_put_node_request-apart :
      {L : Type 0} (log : W → L)
      → ((w : W) → log (new_id w).1 ≡ log w)
      → (node : NodeInput Value) (w : W)
      → log (build_put_node_request to_vec new_id tenant_id graph node w).1 ≡ log w
  build_put_node_request-apart log apart node w = elim (Result-cases (to_vec node.value)) [
    | inr (e, bad) ↦ rw (bad, build_put_node_request, encode_context) refl
    | inl (json, good) ↦ elim (Option-cases node.request_id) [
      | inl fresh ↦ rw (good, build_put_node_request, encode_context) (rw fresh (apart w))
      | inr (id, given) ↦ rw (good, build_put_node_request, encode_context) (rw given refl)
    ]
  ]

  build_put_node_request-node_id :
      (node : NodeInput Value) (w : W) (request : PutNodeRequest)
      → (build_put_node_request to_vec new_id tenant_id graph node w).0 ≡ ok request
      → request.node_id ≡ node.node_id
  build_put_node_request-node_id node w request made = elim (Result-cases (to_vec node.value)) [
    | inr (e, bad) ↦ absurd (ground arith)
    | inl (json, good) ↦ ground arith
  ]

  build_add_edge_request-apart :
      {L : Type 0} (log : W → L)
      → ((w : W) → log (new_id w).1 ≡ log w)
      → (edge : EdgeInput Value) (w : W)
      → log (build_add_edge_request to_vec new_id tenant_id graph edge w).1 ≡ log w
  build_add_edge_request-apart log apart edge w = elim (Result-cases (to_vec edge.value)) [
    | inr (e, bad) ↦ rw (bad, build_add_edge_request, encode_context) refl
    | inl (json, good) ↦ elim (Option-cases edge.request_id) [
      | inl fresh ↦ rw (good, build_add_edge_request, encode_context) (rw fresh (apart w))
      | inr (id, given) ↦ rw (good, build_add_edge_request, encode_context) (rw given refl)
    ]
  ]

  build_add_edge_request-edge_id :
      (edge : EdgeInput Value) (w : W) (request : AddEdgeRequest)
      → (build_add_edge_request to_vec new_id tenant_id graph edge w).0 ≡ ok request
      → request.edge_id ≡ edge.edge_id
  build_add_edge_request-edge_id edge w request made = elim (Result-cases (to_vec edge.value)) [
    | inr (e, bad) ↦ absurd (ground arith)
    | inl (json, good) ↦ ground arith
  ]

module _ {W Req : Type 0} (client : RociaDbClient W) (rpc : Rpc W Req (Unit {0}))
    (uuid : Action W String) (log : BatchLog client rpc uuid) (key : Req → String)
    (try_for_each_concurrent : TryForEach W) (concurrent : IsConcurrent try_for_each_concurrent)
    (operation : String) where
  abbrev run_groups : List Req → Action W (Result Error (Unit {0}))
  run_groups requests =
      try_for_each_concurrent concurrent_requests
        (map (one_by_one (send client operation rpc)) (group_preserving_order key requests))

  run_groups-Written :
      (requests : List Req) (w : W) (k : String)
      → let (answer, w') = run_groups requests w in
        Written
          (of_key key k requests)
          (of_key key k (log.log w))
          (of_key key k (log.log w'))
          answer
  run_groups-Written requests w k =
      let (answer, w') = run_groups requests w in
      subst (λ items. Written items (of_key key k (log.log w)) (of_key key k (log.log w')) answer)
        (of_key-group_preserving_order key k requests)
        (Interleaved-Written key (send client operation rpc) log.log
          (λ a w.
            send_logs client rpc log.log (λ request. request) log.recorded log.refresh_apart
              operation a w)
          k (group_preserving_order key requests) refl
          (group_preserving_order-IsSole key k requests) (concurrent concurrent_requests _ w))

  batch-Outcome :
      (build : Action W (Result Error (List Req))) (ids : List String) (w : W)
      → log.log (build w).1 ≡ log.log w
      → ((requests : List Req) → (build w).0 ≡ ok requests → map key requests ≡ ids)
      → let (answer, w') = (build >>= λ requests. run_groups requests) w in
        BatchOutcome key ids (build w).0 (log.log w) (log.log w') answer
  batch-Outcome build ids w apart named =
      let (built, w1) = build w in
      elim (Result-cases built) [
        | inr (e, bad) ↦ rw (bad, ◌>>=◌) (not_built e refl refl apart)
        | inl (requests, good) ↦
            let (answer, w') = run_groups requests w1 in
            rw (good, ◌>>=◌)
              (sent_in_order requests refl (named requests good) (λ k.
                subst
                  (λ l.
                    Written (of_key key k requests) (of_key key k l) (of_key key k (log.log w'))
                      answer)
                  apart (run_groups-Written requests w1 k)))
      ]

module _ {W Value : Type 0} (client : RociaDbClient W) (rpcs : GraphRpcs W) (uuid : Action W String)
    (codec : Json Value) (try_for_each_concurrent : TryForEach W)
    (concurrent : IsConcurrent try_for_each_concurrent) (tenant_id graph : String) where
  -- put_nodes either fails to encode a node and sends nothing; or it has a request for every node, in
  -- order, and sends the requests of each node id in their order, however the groups take turns: all
  -- of them if it succeeds, a first part of them otherwise, each once or, replayed, twice. Token
  -- refreshes and UUIDs must send none.
  pub put_nodes-Outcome :
      (log : BatchLog client rpcs.put_node uuid) (nodes : List (NodeInput Value)) (w : W)
      → let (answer, w') =
          put_nodes client rpcs uuid codec try_for_each_concurrent tenant_id graph nodes w in
        BatchOutcome
          (λ request. request.node_id)
          (map (λ node. node.node_id) nodes)
          (build_put_node_requests codec.to_vec
            (default_put_node_request_id uuid)
            tenant_id
            graph
            nodes
            w).0
          (log.log w)
          (log.log w')
          answer
  unfolding put_nodes
  put_nodes-Outcome log nodes w =
      let id : Action W String = default_put_node_request_id uuid in
      batch-Outcome client rpcs.put_node uuid log (λ request. request.node_id)
        try_for_each_concurrent concurrent "failed to upsert node"
        (build_put_node_requests codec.to_vec id tenant_id graph nodes)
        (map (λ node. node.node_id) nodes) w
        (collect_with-apart (build_put_node_request codec.to_vec id tenant_id graph) log.log
          (build_put_node_request-apart codec.to_vec id tenant_id graph log.log log.uuid_apart)
          nodes w)
        (collect_with-map (build_put_node_request codec.to_vec id tenant_id graph)
          (λ node. node.node_id) (λ request. request.node_id)
          (λ node w request made.
            build_put_node_request-node_id codec.to_vec id tenant_id graph node w request made)
          nodes w)

  -- add_edges keeps the order of each edge id's requests as put_nodes keeps that of each node id's.
  pub add_edges-Outcome :
      (log : BatchLog client rpcs.add_edge uuid) (edges : List (EdgeInput Value)) (w : W)
      → let (answer, w') =
          add_edges client rpcs uuid codec try_for_each_concurrent tenant_id graph edges w in
        BatchOutcome
          (λ request. request.edge_id)
          (map (λ edge. edge.edge_id) edges)
          (build_add_edge_requests codec.to_vec
            (default_add_edge_request_id uuid)
            tenant_id
            graph
            edges
            w).0
          (log.log w)
          (log.log w')
          answer
  unfolding add_edges
  add_edges-Outcome log edges w =
      let id : Action W String = default_add_edge_request_id uuid in
      batch-Outcome client rpcs.add_edge uuid log (λ request. request.edge_id)
        try_for_each_concurrent concurrent "failed to add edge"
        (build_add_edge_requests codec.to_vec id tenant_id graph edges)
        (map (λ edge. edge.edge_id) edges) w
        (collect_with-apart (build_add_edge_request codec.to_vec id tenant_id graph) log.log
          (build_add_edge_request-apart codec.to_vec id tenant_id graph log.log log.uuid_apart)
          edges w)
        (collect_with-map (build_add_edge_request codec.to_vec id tenant_id graph)
          (λ edge. edge.edge_id) (λ request. request.edge_id)
          (λ edge w request made.
            build_add_edge_request-edge_id codec.to_vec id tenant_id graph edge w request made)
          edges w)
