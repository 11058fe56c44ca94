-- ===== src/Document/Store/Operations.antt =====
-- Each operation of `src/document.rs` is a step of the store of documents.
use Prim.Native.String.{String}
use mathlib.Core.Path.{subst}
use rociadb_core_sdk_rust.Prelude.Effect.{◌>>=◌, pure}
use rociadb_core_sdk_rust.Prelude.{
  ℕ, ◌≡◌, refl, ap, ◌∙◌, inl, inr, Option, none, some, List, Result, Result-cases, Action,
  unwrap_or_else, err,
}
use rociadb_core_sdk_rust.Error.{encode_context, Error, Source}
use rociadb_core_sdk_rust.Client.{RociaDbClient, WriteOptions}
use rociadb_core_sdk_rust.Client.Service.{Json, send}
use rociadb_core_sdk_rust.Client.Contract.{Effect, After, send-After}
use rociadb_core_sdk_rust.Graph.{PutNodeRequest}
use rociadb_core_sdk_rust.Document.{
  build_put_doc_request, DocumentWriteOptions, Key, DocumentRpcs, put_document, get_document,
  delete_document, PutDocRequest, GetDocRequest, GetDocResponse, DeleteDocRequest,
  default_document_request_id, default_delete_document_request_id, node_request, send_node,
  build_delete_doc_request, build_put_doc_request,
}
use rociadb_core_sdk_rust.Document.Store.{
  Keeps, MayPut, stored, loaded, removed, Step, stored_ok, stored_err, loaded_ok, loaded_err,
  removed_ok, removed_err, put, get, delete, Operation, perform, put_mark, delete_mark, PutsOnce,
}
use rociadb_core_sdk_rust.Document.Store.Server.{
  DocumentServer, ReadsBack, documents, decoded, ok_of, Keeps-documents, MayPut-documents,
  Keeps-MayPut, write_effect, read_effect, no_effect, PutsOnce-documents, PutsOnce-Keeps,
  PutsOnce-MayPut, Keeps-PutsOnce,
}

module _ {W T : Type 0} (client : RociaDbClient W) (rpcs : DocumentRpcs W) (uuid : Action W String)
    (codec : Json T) (server : DocumentServer client rpcs uuid) (reads_back : ReadsBack codec) where
  put_id-Keeps :
      (o : Option String) (collection : String) (w : W)
      → Keeps
          (server.docs w)
          (server.docs (unwrap_or_else o (default_document_request_id uuid collection) w).1)
  put_id-Keeps none collection w = server.draws w
  put_id-Keeps (some id) collection w = (λ k. refl, λ m u. u)

  delete_id-Keeps :
      (o : Option String) (collection : String) (w : W)
      → Keeps
          (server.docs w)
          (server.docs (unwrap_or_else o (default_delete_document_request_id uuid collection) w).1)
  delete_id-Keeps none collection w = server.draws w
  delete_id-Keeps (some id) collection w = (λ k. refl, λ m u. u)

  -- Writing the node keeps the document that was written before it.
  node-Step :
      {a : W} {key : Key} {value : T} {bytes : List ℕ} {id : String}
      (request : Option PutNodeRequest) (w : W)
      → decoded codec (some bytes) ≡ some value
      → PutsOnce (put_mark key id) key (some bytes) (server.docs a) (server.docs w)
      → let (answer, w') = (send_node client rpcs uuid codec request >>= λ u'. pure tt) w in
        Step
          (documents codec server.docs a)
          (documents codec server.docs w')
          (stored key id value answer)
  node-Step none w means put_in = stored_ok (PutsOnce-documents codec server.docs means put_in)
  node-Step (some n) w means put_in =
      let (answer, w') = send client "failed to upsert graph node binding" rpcs.put_node n w in
      let after : After (no_effect server.docs) w answer w' =
        send-After client rpcs.put_node n (no_effect server.docs) (server.nodes n)
          "failed to upsert graph node binding" w in
      elim (Result-cases answer) [
        | inl (u, good) ↦
            let kept : Keeps (server.docs w) (server.docs w') =
              subst (λ r. After (no_effect server.docs) w r w') good after in
            rw (good, ◌>>=◌)
              (stored_ok (PutsOnce-documents codec server.docs means (PutsOnce-Keeps put_in kept)))
        | inr (e, bad) ↦
            let kept : Keeps (server.docs w) (server.docs w') =
              subst (λ r. After (no_effect server.docs) w r w') bad after in
            rw (bad, ◌>>=◌)
              (stored_err (
                MayPut-documents codec server.docs means
                  (PutsOnce-MayPut (PutsOnce-Keeps put_in kept))))
      ]

  -- From the document's request on.
  sent-Step :
      {a : W} (key : Key) (value : T) (bytes : List ℕ) (id : String)
      (request : Option PutNodeRequest) (w : W)
      → decoded codec (some bytes) ≡ some value
      → Keeps (server.docs a) (server.docs w)
      → let doc : PutDocRequest = record {
        tenant_id = key.tenant_id;
        collection = key.collection;
        id = key.id;
        json = bytes;
        request_id = id;
      } in
        let (answer, w') =
          (send client "failed to upsert document" rpcs.put_doc doc >>= λ u.
          send_node client rpcs uuid codec request >>= λ u'. pure tt)
            w in
        Step
          (documents codec server.docs a)
          (documents codec server.docs w')
          (stored key id value answer)
  sent-Step {a} key value bytes id request w means kept =
      let doc : PutDocRequest = record {
        tenant_id = key.tenant_id;
        collection = key.collection;
        id = key.id;
        json = bytes;
        request_id = id;
      } in
      let effect : Effect W (Unit {0}) =
        write_effect server.docs (put_mark key id) key (some bytes) in
      let (answer, w') = send client "failed to upsert document" rpcs.put_doc doc w in
      let after : After effect w answer w' =
        send-After client rpcs.put_doc doc effect (server.puts doc) "failed to upsert document" w in
      elim (Result-cases answer) [
        | inl (u, good) ↦
            let put_in : PutsOnce (put_mark key id) key (some bytes) (server.docs w)
                (server.docs w') =
              subst (λ r. After effect w r w') good after in
            rw (good, ◌>>=◌) (node-Step request w' means (Keeps-PutsOnce kept put_in))
        | inr (e, bad) ↦
            let tried : MayPut (put_mark key id) key (some bytes) (server.docs w) (server.docs w') =
              subst (λ r. After effect w r w') bad after in
            rw (bad, ◌>>=◌)
              (stored_err (MayPut-documents codec server.docs means (Keeps-MayPut kept tried)))
      ]

  not_sent :
      {key : Key} {id : String} {value : T} {e : Error} {w w' : W}
      → Keeps (server.docs w) (server.docs w')
      → Step
          (documents codec server.docs w)
          (documents codec server.docs w')
          (stored key id value (err e))
  not_sent kept = stored_err (inl (Keeps-documents codec server.docs kept))

  put-Step :
      (link_json : String → String → Result Source (List ℕ)) (key : Key) (value : T)
      (options : DocumentWriteOptions) (w : W)
      → let (answer, w') = put_document client rpcs uuid codec link_json key value options w in
        Step (documents codec server.docs w) (documents codec server.docs w') (
          stored key
            (unwrap_or_else options.request_id
              (default_document_request_id uuid key.collection)
              w).0
            value
            answer)
  unfolding put_document
  put-Step link_json key value options w =
      let (id, w1) =
        unwrap_or_else options.request_id (default_document_request_id uuid key.collection) w in
      let kept : Keeps (server.docs w) (server.docs w1) =
        put_id-Keeps options.request_id key.collection w in
      elim (Result-cases
        (node_request client rpcs uuid codec link_json key options.node_binding id)) [
          | inr (x, bad) ↦ rw (bad, put_document) (not_sent kept)
          | inl (request, built) ↦ elim (Result-cases (codec.to_vec value)) [
            | inr (x, bad) ↦
                rw (built, put_document)
                  (rw (bad, build_put_doc_request, encode_context) (not_sent kept))
            | inl (bytes, made) ↦
                let means : decoded codec (some bytes) ≡ some value =
                  ap ok_of (reads_back value bytes made) in
                rw (built, put_document)
                  (rw (made, build_put_doc_request, encode_context)
                    (sent-Step key value bytes id request w1 means kept))
          ]
        ]

  get-Step :
      (key : Key) (w : W)
      → let (answer, w') = get_document client rpcs uuid codec key w in
        Step (documents codec server.docs w) (documents codec server.docs w') (loaded key answer)
  unfolding get_document
  get-Step key w =
      let request : GetDocRequest = record {
        tenant_id = key.tenant_id;
        collection = key.collection;
        id = key.id;
      } in
      let effect : Effect W GetDocResponse = read_effect server.docs key in
      let (answer, w') = send client "failed to load document" rpcs.get_doc request w in
      let after : After effect w answer w' =
        send-After client rpcs.get_doc request effect (server.gets request)
          "failed to load document" w in
      elim (Result-cases answer) [
        | inr (e, bad) ↦
            let kept : Keeps (server.docs w) (server.docs w') =
              subst (λ r. After effect w r w') bad after in
            rw (bad, ◌>>=◌) (loaded_err (Keeps-documents codec server.docs kept))
        | inl (response, good) ↦
            let (is, kept) : ((server.docs w).at key ≡ some response.json)
                × Keeps (server.docs w) (server.docs w') =
              subst (λ r. After effect w r w') good after in
            elim (Result-cases (codec.from_slice response.json)) [
              | inr (x, bad) ↦
                  rw (good, ◌>>=◌) (rw bad (loaded_err (Keeps-documents codec server.docs kept)))
              | inl (value, read) ↦
                  rw (good, ◌>>=◌)
                    (rw read (
                      loaded_ok (ap (decoded codec) is ∙ ap ok_of read)
                        (Keeps-documents codec server.docs kept)))
            ]
      ]

  delete-Step :
      (key : Key) (options : WriteOptions) (w : W)
      → let (answer, w') = delete_document client rpcs uuid codec key options w in
        Step (documents codec server.docs w) (documents codec server.docs w') (
          removed key
            (unwrap_or_else options.request_id
              (default_delete_document_request_id uuid key.collection)
              w).0
            answer)
  unfolding delete_document
  delete-Step key options w =
      let (id, w1) =
        unwrap_or_else options.request_id (default_delete_document_request_id uuid key.collection)
          w in
      let kept : Keeps (server.docs w) (server.docs w1) =
        delete_id-Keeps options.request_id key.collection w in
      let request : DeleteDocRequest = build_delete_doc_request key id in
      let effect : Effect W (Unit {0}) = write_effect server.docs (delete_mark key id) key none in
      let (answer, w') = send client "failed to delete document" rpcs.delete_doc request w1 in
      let after : After effect w1 answer w' =
        send-After client rpcs.delete_doc request effect (server.deletes request)
          "failed to delete document" w1 in
      elim (Result-cases answer) [
        | inl (u, good) ↦
            let gone : PutsOnce (delete_mark key id) key none (server.docs w1) (server.docs w') =
              subst (λ r. After effect w1 r w') good after in
            rw (good, ◌>>=◌)
              (removed_ok (PutsOnce-documents codec server.docs refl (Keeps-PutsOnce kept gone)))
        | inr (e, bad) ↦
            let tried : MayPut (delete_mark key id) key none (server.docs w1) (server.docs w') =
              subst (λ r. After effect w1 r w') bad after in
            rw (bad, ◌>>=◌)
              (removed_err (MayPut-documents codec server.docs refl (Keeps-MayPut kept tried)))
      ]

  pub perform-Step :
      (link_json : String → String → Result Source (List ℕ)) (operation : Operation T) (w : W)
      → let (event, w') = perform client rpcs uuid codec link_json operation w in
        Step (documents codec server.docs w) (documents codec server.docs w') event
  unfolding perform
  perform-Step link_json (put key value options) w = put-Step link_json key value options w
  perform-Step link_json (get key) w = get-Step key w
  perform-Step link_json (delete key options) w = delete-Step key options w
