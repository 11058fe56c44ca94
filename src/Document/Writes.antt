-- ===== src/Document/Writes.antt =====
-- What `put_document` of `src/document.rs` sends, in which order, and under which request id.
use Prim.Native.String.{String, ◌++◌}
use rociadb_core_sdk_rust.Prelude.{
  ℕ, ◌≡◌, refl, inl, inr, Option, none, some, List, arith, Result, Result-cases, Action,
  unwrap_or_else, ok, err, ◌⊎◌,
}
use rociadb_core_sdk_rust.Error.{Error, Source}
use rociadb_core_sdk_rust.Client.{RociaDbClient}
use rociadb_core_sdk_rust.Client.Service.{Json, send}
use rociadb_core_sdk_rust.Client.Sends.{Recorded, RefreshesApart, Sent, send_logs}
use rociadb_core_sdk_rust.Graph.{PutNodeRequest}
use rociadb_core_sdk_rust.Document.{
  NodeBinding, PutDocRequest, Key, DocumentRpcs, default_document_request_id, node_request,
}

-- A write that was sent.
pub data Write : Type 0 where
  doc_write : PutDocRequest → Write
  node_write : PutNodeRequest → Write

-- `log` reads off a world the writes that were sent. The two RPCs add their own, and neither a token
-- refresh nor drawing a UUID adds any.
pub record WriteLog {W : Type 0} (client : RociaDbClient W) (rpcs : DocumentRpcs W)
    (uuid : Action W String) : Type 0 where
  pub log : W → List Write
  pub doc_recorded : Recorded client rpcs.put_doc log doc_write
  pub node_recorded : Recorded client rpcs.put_node log node_write
  pub refresh_apart : RefreshesApart client log
  pub uuid_apart : (w : W) → log (uuid w).1 ≡ log w

module _ {T : Type 0} (codec : Json T) (link_json : String → String → Result Source (List ℕ))
    (key : Key) (value : T) (id : String) where
  -- The document's request carries its name, the value's JSON and the request id.
  abbrev pub NamesDocument : PutDocRequest → Type 0
  NamesDocument d =
      (d.tenant_id ≡ key.tenant_id)
      × (d.collection ≡ key.collection)
      × (d.id ≡ key.id)
      × (codec.to_vec value ≡ ok d.json)
      × (d.request_id ≡ id)

  -- The node's request is that of a binding, with the link's JSON, under the same request id.
  abbrev pub NamesNode : NodeBinding → PutNodeRequest → Type 0
  NamesNode b n =
      (n.tenant_id ≡ key.tenant_id)
      × (n.graph ≡ b.graph)
      × (n.node_id ≡ b.label ++ (":" ++ key.id))
      × (link_json key.collection key.id ≡ ok n.json)
      × (n.request_id ≡ id)

  -- The value has no JSON, or a node is bound and the link has none.
  abbrev pub NotEncoded : Option NodeBinding → Type 0
  NotEncoded binding =
      ((x : Source) × (codec.to_vec value ≡ err x))
      ⊎ ((b : NodeBinding) × (x : Source) × (binding ≡ some b)
          × (link_json key.collection key.id ≡ err x))

-- How a write of a document may go, by the writes that were sent. In the last case the node is sent
-- in the world that the document's own answer, a success, leaves.
pub data Outcome {W T : Type 0} (client : RociaDbClient W) (rpcs : DocumentRpcs W)
    (log : W → List Write) (codec : Json T) (link_json : String → String → Result Source (List ℕ))
    (key : Key) (value : T) (id : String) (binding : Option NodeBinding) (before after : List Write)
    (answer : Result Error (Unit {0})) : Type 0 where
  not_encoded :
      (e : Error)
      → NotEncoded codec link_json key value id binding
      → answer ≡ err e
      → after ≡ before
      → Outcome client rpcs log codec link_json key value id binding before after answer
  document_failed :
      (d : PutDocRequest) (e : Error)
      → NamesDocument codec link_json key value id d
      → answer ≡ err e
      → Sent (doc_write d) before after
      → Outcome client rpcs log codec link_json key value id binding before after answer
  written_alone :
      (d : PutDocRequest)
      → NamesDocument codec link_json key value id d
      → binding ≡ none
      → answer ≡ ok tt
      → Sent (doc_write d) before after
      → Outcome client rpcs log codec link_json key value id binding before after answer
  bound :
      (d : PutDocRequest) (n : PutNodeRequest) (b : NodeBinding) (w : W)
      → NamesDocument codec link_json key value id d
      → binding ≡ some b
      → NamesNode codec link_json key value id b n
      → (send client "failed to upsert document" rpcs.put_doc d w).0 ≡ ok tt
      → answer
        ≡ (send client "failed to upsert graph node binding" rpcs.put_node n
            (send client "failed to upsert document" rpcs.put_doc d w).1).0
      → Sent (doc_write d) before (log (send client "failed to upsert document" rpcs.put_doc d w).1)
      → Sent (node_write n) (log (send client "failed to upsert document" rpcs.put_doc d w).1) after
      → Outcome client rpcs log codec link_json key value id binding before after answer

module _ {W T : Type 0} (client : RociaDbClient W) (rpcs : DocumentRpcs W) (uuid : Action W String)
    (codec : Json T) (log : WriteLog client rpcs uuid) where
  pub id_apart :
      (o : Option String) (collection : String) (w : W)
      → log.log (unwrap_or_else o (default_document_request_id uuid collection) w).1 ≡ log.log w
  id_apart none collection w = log.uuid_apart w
  id_apart (some id) collection w = refl

  pub doc-Sent :
      (operation : String) (d : PutDocRequest) (w : W)
      → Sent (doc_write d) (log.log w) (log.log (send client operation rpcs.put_doc d w).1)
  doc-Sent operation d w =
      send_logs client rpcs.put_doc log.log doc_write log.doc_recorded log.refresh_apart operation d
        w

  pub node-Sent :
      (operation : String) (n : PutNodeRequest) (w : W)
      → Sent (node_write n) (log.log w) (log.log (send client operation rpcs.put_node n w).1)
  node-Sent operation n w =
      send_logs client rpcs.put_node log.log node_write log.node_recorded log.refresh_apart
        operation n w

  pub node_request-none :
      (link_json : String → String → Result Source (List ℕ)) (key : Key)
      (binding : Option NodeBinding) (id : String)
      → node_request client rpcs uuid codec link_json key binding id ≡ ok none
      → binding ≡ none
  node_request-none link_json key none id made = refl
  node_request-none link_json key (some b) id made =
      elim (Result-cases (link_json key.collection key.id)) [
        | inr (x, bad) ↦ absurd (ground arith)
        | inl (json, good) ↦ absurd (ground arith)
      ]
