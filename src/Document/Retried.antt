-- ===== src/Document/Retried.antt =====
-- `put_document` of `src/document.rs` as the operation that `RociaDbClient::retry` of `src/retry.rs`
-- retries, under a request id that the caller fixed.
mod Tests
use Prim.Native.String.{String}
use rociadb_core_sdk_rust.Prelude.{ℕ, ◌≡◌, Option, none, some, List, Result, Action, ok}
use rociadb_core_sdk_rust.Duration.{Duration}
use rociadb_core_sdk_rust.Error.{Error, Source}
use rociadb_core_sdk_rust.Client.{RociaDbClient}
use rociadb_core_sdk_rust.Client.Service.{Json}
use rociadb_core_sdk_rust.Retry.Writes.{Any}
use rociadb_core_sdk_rust.Document.{
  NodeBinding, Key, DocumentRpcs, DocumentWriteOptions, with_request_id, build_put_doc_request,
  node_request, put_document,
}
use rociadb_core_sdk_rust.Document.Writes.{Write, doc_write, node_write}

-- One write of a document, and what a retried one is run with.
module _ {W T : Type 0} (client : RociaDbClient W) (rpcs : DocumentRpcs W) (uuid : Action W String)
    (codec : Json T) (link_json : String → String → Result Source (List ℕ)) (key : Key) (value : T)
    (id : String) (options : DocumentWriteOptions) where
  -- The document's request under the id.
  abbrev pub IsDocWrite : Write → Type 0
  IsDocWrite (doc_write d) = build_put_doc_request codec key value id ≡ ok d
  IsDocWrite (node_write n) = ⊥

  -- The document's request under the id, or that of its node.
  abbrev pub IsItsWrite : Write → Type 0
  IsItsWrite (doc_write d) = build_put_doc_request codec key value id ≡ ok d
  IsItsWrite (node_write n) =
      node_request client rpcs uuid codec link_json key options.node_binding id ≡ ok (some n)

  -- Its node's request under the id.
  abbrev pub IsNodeWrite : Write → Type 0
  IsNodeWrite (doc_write d) = ⊥
  IsNodeWrite (node_write n) =
      node_request client rpcs uuid codec link_json key options.node_binding id ≡ ok (some n)

  -- The document was sent, and its node if it is to be bound to one.
  abbrev pub WritesAll : Option NodeBinding → List Write → Type 0
  WritesAll none xs = Any IsDocWrite xs
  WritesAll (some b) xs = Any IsDocWrite xs × Any IsNodeWrite xs

  abbrev pub attempt_of : Action W (Result Error (Unit {0}))
  attempt_of = put_document client rpcs uuid codec link_json key value (with_request_id id options)
