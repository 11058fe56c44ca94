-- ===== src/Document.antt =====
-- `src/document.rs`: the requests of the document operations, and the writes.
--
-- A document's type is an argument with its JSON codec. The RPCs and the generator of request ids
-- are arguments too, as actions on a world. Logging is left out.
pub mod Reads
pub mod Writes
pub mod Retried
pub mod Pages
pub mod Store
mod Tests
use Prim.Native.String.{String, ◌++◌}
use rociadb_core_sdk_rust.Prelude.Effect.{◌>>=◌, ◌>>◌, pure, lift, always}
use rociadb_core_sdk_rust.Prelude.{
  ℕ, Option, none, some, List, Result, Action, unwrap_or_else, ok, err,
}
use rociadb_core_sdk_rust.Error.{Error, Source, encode_context, decode_context}
use rociadb_core_sdk_rust.Client.{RociaDbClient, WriteOptions}
use rociadb_core_sdk_rust.Client.Service.{Rpc, Json, send}
use rociadb_core_sdk_rust.Graph.{PutNodeRequest}

pub record NodeBinding : Type 0 where
  pub label : String
  pub graph : String

pub record DocumentWriteOptions : Type 0 where
  pub request_id : Option String
  pub node_binding : Option NodeBinding

abbrev pub new_binding : String → String → NodeBinding
new_binding label graph = record { label = label; graph = graph }

abbrev pub no_options : DocumentWriteOptions
no_options = record { request_id = none; node_binding = none }

abbrev pub with_request_id : String → DocumentWriteOptions → DocumentWriteOptions
with_request_id id o = record o { request_id = some id }

abbrev pub with_node_binding : NodeBinding → DocumentWriteOptions → DocumentWriteOptions
with_node_binding binding o = record o { node_binding = some binding }

pub record PutDocRequest : Type 0 where
  pub tenant_id : String
  pub collection : String
  pub id : String
  pub json : List ℕ
  pub request_id : String

pub record GetDocRequest : Type 0 where
  pub tenant_id : String
  pub collection : String
  pub id : String

pub record GetDocResponse : Type 0 where
  pub json : List ℕ

pub record DeleteDocRequest : Type 0 where
  pub tenant_id : String
  pub collection : String
  pub id : String
  pub request_id : String

-- A document's name.
pub record Key : Type 0 where
  pub tenant_id : String
  pub collection : String
  pub id : String

-- A default request id ends in the UUID that `uuid` draws.
module _ {W : Type 0} (uuid : Action W String) where
  abbrev pub default_document_request_id : String → Action W String
  default_document_request_id collection w =
      let (u, w') = uuid w in ("put_document:" ++ (collection ++ (":" ++ u)), w')

  abbrev pub default_delete_document_request_id : String → Action W String
  default_delete_document_request_id collection w =
      let (u, w') = uuid w in ("delete_document:" ++ (collection ++ (":" ++ u)), w')

abbrev pub build_put_doc_request :
    {T : Type 0} → Json T → Key → T → String → Result Error PutDocRequest
build_put_doc_request codec key value request_id =
    elim (encode_context "document json" (codec.to_vec value)) [
      | err e ↦ err e
      | ok json ↦ ok (record {
        tenant_id = key.tenant_id;
        collection = key.collection;
        id = key.id;
        json = json;
        request_id = request_id;
      })
    ]

abbrev pub build_delete_doc_request : Key → String → DeleteDocRequest
build_delete_doc_request key request_id = record {
  tenant_id = key.tenant_id;
  collection = key.collection;
  id = key.id;
  request_id = request_id;
}

-- `link_json` is what `serde_json` makes of the object of a collection and an id.
abbrev pub build_node_binding_request :
    (String → String → Result Source (List ℕ))
    → Key
    → NodeBinding
    → String
    → Result Error PutNodeRequest
build_node_binding_request link_json key binding request_id =
    elim (encode_context "node json" (link_json key.collection key.id)) [
      | err e ↦ err e
      | ok json ↦ ok (record {
        tenant_id = key.tenant_id;
        graph = binding.graph;
        node_id = binding.label ++ (":" ++ key.id);
        json = json;
        request_id = request_id;
      })
    ]

-- The RPCs of a document's own operations, and of the node that it may be bound to.
pub record DocumentRpcs (W : Type 0) : Type 0 where
  pub put_doc : Rpc W PutDocRequest (Unit {0})
  pub get_doc : Rpc W GetDocRequest GetDocResponse
  pub delete_doc : Rpc W DeleteDocRequest (Unit {0})
  pub put_node : Rpc W PutNodeRequest (Unit {0})

module _ {W T : Type 0} (client : RociaDbClient W) (rpcs : DocumentRpcs W) (uuid : Action W String)
    (codec : Json T) where
  -- The node's request, if there is a binding: `map` and `transpose`.
  abbrev pub node_request :
      (String → String → Result Source (List ℕ))
      → Key
      → Option NodeBinding
      → String
      → Result Error (Option PutNodeRequest)
  node_request link_json key none request_id = ok none
  node_request link_json key (some binding) request_id =
      elim (build_node_binding_request link_json key binding request_id) [
        | err e ↦ err e
        | ok node ↦ ok (some node)
      ]

  abbrev pub send_node : Option PutNodeRequest → Action W (Result Error (Unit {0}))
  send_node none = pure tt
  send_node (some node) = send client "failed to upsert graph node binding" rpcs.put_node node

  -- Both requests are built before anything is sent.
  unfoldable pub put_document :
      (String → String → Result Source (List ℕ))
      → Key
      → T
      → DocumentWriteOptions
      → Action W (Result Error (Unit {0}))
  put_document link_json key value options =
      always (unwrap_or_else options.request_id (default_document_request_id uuid key.collection))
      >>= λ request_id.
          lift (node_request link_json key options.node_binding request_id) >>= λ node.
          lift (build_put_doc_request codec key value request_id) >>= λ doc.
          send client "failed to upsert document" rpcs.put_doc doc >>= λ u.
          send_node node >>= λ u'. pure tt

  unfoldable pub get_document : Key → Action W (Result Error T)
  get_document key =
      send client "failed to load document" rpcs.get_doc
        (record { tenant_id = key.tenant_id; collection = key.collection; id = key.id })
      >>= λ response. lift (decode_context "document" (codec.from_slice response.json))

  unfoldable pub delete_document : Key → WriteOptions → Action W (Result Error (Unit {0}))
  delete_document key options =
      always
        (unwrap_or_else options.request_id (default_delete_document_request_id uuid key.collection))
      >>= λ request_id.
          send client "failed to delete document" rpcs.delete_doc
            (build_delete_doc_request key request_id)
          >>= λ u. pure tt
