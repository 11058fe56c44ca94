-- ===== src/Graph/Batch/History.antt =====
-- What a batch of writes of `src/graph.rs` leaves behind, seen abstractly: a history of writes
-- forgets the order between the writes of different ids, and that a write was repeated.
use Prim.Native.String.{String}
use mathlib.Core.Quot
use mathlib.Core.Quot.{Quot}
use mathlib.Core.Path.{subst}
use text.Mathlib.TextEquality.{IsScalar-prop}
use rociadb_core_sdk_rust.Prelude.{
  ◌≡◌, refl, sym, ap, Option, none, some, List, [], ◌∷◌, ◌++◌, arith, Result, Action, ok,
}
use rociadb_core_sdk_rust.Error.{Error}
use rociadb_core_sdk_rust.Client.{RociaDbClient}
use rociadb_core_sdk_rust.Client.Service.{Json}
use rociadb_core_sdk_rust.Graph.{NodeInput, PutNodeRequest, build_put_node_requests}
use rociadb_core_sdk_rust.Graph.Groups.{of_key}
use rociadb_core_sdk_rust.Graph.Separate.{of_key-append}
use rociadb_core_sdk_rust.Graph.Schedule.{
  IsConcurrent, Written, all_written, some_written, Repeats, nothing, once, twice,
}
use rociadb_core_sdk_rust.Graph.Calls.{GraphRpcs, default_put_node_request_id}
use rociadb_core_sdk_rust.Graph.Batch.{TryForEach, put_nodes}
use rociadb_core_sdk_rust.Graph.Batch.Order.{
  BatchLog, BatchOutcome, not_built, sent_in_order, put_nodes-Outcome,
}

module _ {A : Type 0} where
  repeated_once : (items : List A) → Repeats items items
  repeated_once [] = nothing
  repeated_once (a ∷ items) = once (repeated_once items)

  Repeats-append :
      {items sent : List A} (before : List A)
      → Repeats items sent
      → Repeats (before ++ items) (before ++ sent)
  Repeats-append [] each = each
  Repeats-append (a ∷ before) each = once (Repeats-append before each)

  -- The last of some items, or the one before them all.
  abbrev pub last_after : Option A → List A → Option A
  last_after before [] = before
  last_after before (a ∷ items) = last_after (some a) items

  pub last_after-Repeats :
      {items sent : List A} (before : Option A)
      → Repeats items sent
      → last_after before items ≡ last_after before sent
  last_after-Repeats before nothing = refl
  last_after-Repeats before (once {a = a} each) = last_after-Repeats (some a) each
  last_after-Repeats before (twice {a = a} each) = last_after-Repeats (some a) each

  -- A group of writes that went well.
  Written-Repeats :
      {items before after : List A} {answer : Result Error (Unit {0})}
      → Written items before after answer
      → answer ≡ ok tt
      → Repeats (before ++ items) after
  Written-Repeats {before = before} (all_written written each adds) done =
      rw adds (Repeats-append before each)
  Written-Repeats (some_written first rest written split each adds) done = absurd (ground arith)

module _ {Req : Type 0} (key : Req → String) where
  -- One log has the writes of the other, those of each key in the same order, some of them twice in a
  -- row.
  abbrev pub Alike : List Req → List Req → Type 0
  Alike xs ys = (k : String) → Repeats (of_key key k xs) (of_key key k ys)

  abbrev pub History : Type 0
  History = Quot Alike

  -- The latest write of a key.
  unfoldable pub latest : IsSet (Option Req) → String → History → Option Req
  latest is_set k =
      Quot.lift is_set (λ xs. last_after none (of_key key k xs))
        (λ xs ys alike. last_after-Repeats none (alike k))

  -- A batch that succeeds.
  BatchOutcome-history :
      {ids : List String} {built : Result Error (List Req)} {before after : List Req}
      {answer : Result Error (Unit {0})} (requests : List Req)
      → BatchOutcome key ids built before after answer
      → built ≡ ok requests
      → answer ≡ ok tt
      → ◌≡◌ {A = History} (Quot.mk (before ++ requests)) (Quot.mk after)
  BatchOutcome-history requests (not_built e bad failed same) good done = absurd (ground arith)
  BatchOutcome-history {before = before} {after = after} {answer = answer} requests
        (sent_in_order others good' named each) good done =
      let same : others ≡ requests = ground arith in
      Quot.sound (λ k. rw (of_key-append key k before requests) (
        Written-Repeats
          (subst (λ l. Written (of_key key k l) (of_key key k before) (of_key key k after) answer)
            same (each k))
          done))

PutNodeRequest-set : IsSet (Option PutNodeRequest)
PutNodeRequest-set = hlevel (IsScalar-prop)

module _ {W Value : Type 0} (client : RociaDbClient W) (rpcs : GraphRpcs W) (uuid : Action W String)
    (codec : Json Value) (try_for_each_concurrent : TryForEach W)
    (concurrent : IsConcurrent try_for_each_concurrent) (tenant_id graph : String) where
  -- A put_nodes that succeeds leaves, whatever the order in which its groups took turns and whatever
  -- was replayed, the history that the requests for its nodes leave in the caller's order; so that
  -- the latest write of every node id is the caller's latest. The requests are those that encoding
  -- the nodes gives. Token refreshes and UUIDs must send none.
  pub put_nodes_history :
      (log : BatchLog client rpcs.put_node uuid) (nodes : List (NodeInput Value)) (w : W)
      (requests : List PutNodeRequest)
      → (build_put_node_requests codec.to_vec
          (default_put_node_request_id uuid)
          tenant_id
          graph
          nodes
          w).0
        ≡ ok requests
      → let (answer, w') =
          put_nodes client rpcs uuid codec try_for_each_concurrent tenant_id graph nodes w in
        answer ≡ ok tt
        → (◌≡◌ {A = History (λ r. r.node_id)}
            (Quot.mk (log.log w ++ requests))
            (Quot.mk (log.log w')))
          × ((k : String)
              → last_after none (of_key (λ r. r.node_id) k (log.log w'))
                ≡ last_after none (of_key (λ r. r.node_id) k (log.log w ++ requests)))
  unfolding latest
  put_nodes_history log nodes w requests built done =
      let key : PutNodeRequest → String = λ r. r.node_id in
      let (answer, w') =
        put_nodes client rpcs uuid codec try_for_each_concurrent tenant_id graph nodes w in
      let same : ◌≡◌ {A = History key} (Quot.mk (log.log w ++ requests)) (Quot.mk (log.log w')) =
        BatchOutcome-history key requests
          (put_nodes-Outcome client rpcs uuid codec try_for_each_concurrent concurrent tenant_id
            graph log nodes w)
          built done in
      (same, λ k. sym (ap (latest key PutNodeRequest-set k) same))
