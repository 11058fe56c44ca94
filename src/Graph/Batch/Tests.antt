-- ===== src/Graph/Batch/Tests.antt =====
-- A batch that is run one group after the other, and the theorems at concrete inputs.
use Prim.Native.String.{String}
use rociadb_core_sdk_rust.Prelude.{
  ℕ, ◌≡◌, refl, inl, inr, none, some, List, [], ◌∷◌, ◌++◌, map, flatten, arith, Result,
  Result-cases, Action, ok, err,
}
use rociadb_core_sdk_rust.Error.{Error, Status}
use rociadb_core_sdk_rust.Client.{RociaDbClient, attempt, attempt_with_replay}
use rociadb_core_sdk_rust.Client.Service.{Rpc, Json, send}
use rociadb_core_sdk_rust.Graph.{
  NodeInput, EdgeInput, PutNodeRequest, AddEdgeRequest, build_put_node_requests,
  group_preserving_order,
}
use rociadb_core_sdk_rust.Graph.Schedule.{
  here, later, Abandoned, none_more, one_more, Interleaved, finished, next, failed, IsConcurrent,
}
use rociadb_core_sdk_rust.Graph.Calls.{GraphRpcs, new_node, new_edge, default_put_node_request_id}
use rociadb_core_sdk_rust.Graph.Batch.{Task, put_nodes, add_edges}
use rociadb_core_sdk_rust.Graph.Batch.Order.{BatchLog, BatchOutcome, put_nodes-Outcome}
use mathlib.Core.Quot
use rociadb_core_sdk_rust.Graph.Groups.{of_key}
use rociadb_core_sdk_rust.Graph.Batch.History.{History, last_after, put_nodes_history}

module _ {W : Type 0} where
  -- One call after the other.
  abbrev run_calls : Task W → Action W (Result Error (Unit {0}))
  run_calls [] w = (ok tt, w)
  run_calls (call ∷ rest) w =
      let others = run_calls rest (call w).1 in
      elim (call w).0 [ ok u ↦ others | err e ↦ (err e, (call w).1) ]

  abbrev in_turn : ℕ → List (Task W) → Action W (Result Error (Unit {0}))
  in_turn limit tasks = run_calls (flatten tasks)

  pad-Abandoned :
      {tasks : List (Task W)} {w w' : W} → Abandoned tasks w w' → Abandoned ([] ∷ tasks) w w'
  pad-Abandoned none_more = none_more
  pad-Abandoned (one_more picks more) = one_more (later picks) (pad-Abandoned more)

  pad-Interleaved :
      {tasks : List (Task W)} {w w' : W} {answer : Result Error (Unit {0})}
      → Interleaved tasks w answer w'
      → Interleaved ([] ∷ tasks) w answer w'
  unfolding mathlib.Core.List.flatten
  pad-Interleaved (finished empty) = finished empty
  pad-Interleaved (next picks good run) = next (later picks) good (pad-Interleaved run)
  pad-Interleaved (failed picks bad more) = failed (later picks) bad (pad-Abandoned more)

  -- The first task, and then the others.
  run_calls-Interleaved :
      (task : Task W) (tasks : List (Task W))
      → ((w : W) → let (answer, w') = run_calls (flatten tasks) w in Interleaved tasks w answer w')
      → (w : W)
      → let (answer, w') = run_calls (task ++ flatten tasks) w in
        Interleaved (task ∷ tasks) w answer w'
  run_calls-Interleaved [] tasks others w = pad-Interleaved (others w)
  run_calls-Interleaved (call ∷ rest) tasks others w = elim (Result-cases (call w).0) [
    | inl (u, good) ↦
        rw (good, run_calls) (next here good (run_calls-Interleaved rest tasks others (call w).1))
    | inr (e, bad) ↦ rw (bad, run_calls) (failed here bad none_more)
  ]

  tasks-Interleaved :
      (tasks : List (Task W)) (w : W)
      → let (answer, w') = run_calls (flatten tasks) w in Interleaved tasks w answer w'
  unfolding mathlib.Core.List.flatten
  tasks-Interleaved [] w = finished refl
  tasks-Interleaved (task ∷ tasks) w = run_calls-Interleaved task tasks (tasks-Interleaved tasks) w

  in_turn-IsConcurrent : IsConcurrent in_turn
  in_turn-IsConcurrent limit tasks w = tasks-Interleaved tasks w

-- The world: the nodes and the edges that were sent.
abbrev World : Type 0
World = List PutNodeRequest × List AddEdgeRequest

-- A method that answers in time.
abbrev answering :
    {Req Resp : Type 0} → (Req → World → Result Status Resp × World) → Rpc World Req Resp
answering f = record {
  call = λ r w. f r.message w;
  deadline = λ t r w. let (answer, w') = f r.message w in (some answer, w');
}

abbrev rpcs : GraphRpcs World
rpcs = record {
  get_node = answering (λ r w. (ok (record { json = [] }), w));
  get_edge =
      answering (λ r w. (ok (record { from = "a"; to = "b"; label = "knows"; json = [] }), w));
  put_node = answering (λ r w. (ok tt, (w.0 ++ r ∷ [], w.1)));
  add_edge = answering (λ r w. (ok tt, (w.0, w.1 ++ r ∷ [])));
  delete_edge = answering (λ r w. (ok tt, w));
  neighbors_out = answering (λ r w. (ok (record { neighbors = []; page = none }), w));
  neighbors_in = answering (λ r w. (ok (record { neighbors = []; page = none }), w));
  list_graphs = answering (λ r w. (ok (record { names = []; page = none }), w));
  list_nodes = answering (λ r w. (ok (record { names = []; page = none }), w));
}

abbrev client : RociaDbClient World
client = record {
  host = "http://127.0.0.1:50051";
  request_timeout = none;
  max_file_bytes = 1024;
  token_manager = none;
}

abbrev uuid : Action World String
uuid w = ("00000000", w)

abbrev numbers : Json ℕ
numbers = record { to_vec = λ n. ok (n ∷ []); from_slice = λ bytes. ok 0 }

abbrev node_log : BatchLog client rpcs.put_node uuid
node_log = record {
  log = λ w. w.0;
  recorded = record { call_logs = λ r w. refl; deadline_logs = λ t r w. refl };
  refresh_apart = λ m w on. absurd (ground arith);
  uuid_apart = λ w. refl;
}

abbrev nodes : List (NodeInput ℕ)
nodes = new_node "a" 1 ∷ new_node "b" 2 ∷ new_node "a" 3 ∷ []

abbrev edges : List (EdgeInput ℕ)
edges = new_edge "e" "a" "b" "knows" 1 ∷ new_edge "e" "a" "b" "knows" 2 ∷ []

abbrev start : World
start = ([], [])

abbrev sent_of : PutNodeRequest → String × List ℕ
sent_of r = (r.node_id, r.json)

abbrev in_order : List (String × List ℕ)
in_order = ("a", 1 ∷ []) ∷ ("a", 3 ∷ []) ∷ ("b", 2 ∷ []) ∷ []

-- The two writes of a node keep their order, and the other node's comes after both here.
sent_nodes :
    map sent_of (put_nodes client rpcs uuid numbers in_turn "t" "g" nodes start).1.0 ≡ in_order
unfolding put_nodes group_preserving_order send attempt_with_replay attempt
    mathlib.Core.List.flatten
sent_nodes = refl

sent_edges :
    map (λ r. r.json) (add_edges client rpcs uuid numbers in_turn "t" "g" edges start).1.1
    ≡ (1 ∷ []) ∷ (2 ∷ []) ∷ []
unfolding add_edges group_preserving_order send attempt_with_replay attempt
    mathlib.Core.List.flatten
sent_edges = refl

put_nodes-Outcome_example :
    let (answer, w') = put_nodes client rpcs uuid numbers in_turn "t" "g" nodes start in
    BatchOutcome
      (λ request. request.node_id)
      ("a" ∷ "b" ∷ "a" ∷ [])
      (build_put_node_requests numbers.to_vec
        (default_put_node_request_id uuid)
        "t"
        "g"
        nodes
        start).0
      []
      w'.0
      answer
put_nodes-Outcome_example =
    put_nodes-Outcome client rpcs uuid numbers in_turn in_turn-IsConcurrent "t" "g" node_log nodes
      start

abbrev request : String → ℕ → PutNodeRequest
request node_id value = record {
  tenant_id = "t";
  graph = "g";
  node_id = node_id;
  json = value ∷ [];
  request_id = "put_node:00000000";
}

abbrev requests : List PutNodeRequest
requests = request "a" 1 ∷ request "b" 2 ∷ request "a" 3 ∷ []

all_sent : (put_nodes client rpcs uuid numbers in_turn "t" "g" nodes start).0 ≡ ok tt
unfolding put_nodes group_preserving_order send attempt_with_replay attempt
    mathlib.Core.List.flatten
all_sent = refl

put_nodes_history_example :
    (◌≡◌ {A = History (λ r. r.node_id)}
      (Quot.mk ([] ++ requests))
      (Quot.mk (put_nodes client rpcs uuid numbers in_turn "t" "g" nodes start).1.0))
    × ((k : String)
        → last_after none (
            of_key
              (λ r. r.node_id)
              k
              (put_nodes client rpcs uuid numbers in_turn "t" "g" nodes start).1.0)
          ≡ last_after none (of_key (λ r. r.node_id) k ([] ++ requests)))
put_nodes_history_example =
    put_nodes_history client rpcs uuid numbers in_turn in_turn-IsConcurrent "t" "g" node_log nodes
      start requests refl all_sent
