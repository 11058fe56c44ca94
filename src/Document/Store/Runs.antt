-- ===== src/Document/Store/Runs.antt =====
-- Sequences of the document operations of `src/document.rs` against the store that they implement.
use Prim.Native.String.{String}
use rociadb_core_sdk_rust.Prelude.{
  ℕ, ◌≡◌, refl, ap, ◌∙◌, ◌≢◌, inl, inr, some, List, [], ◌∷◌, Result, Action, ok, false,
  unwrap_or_else,
}
use rociadb_core_sdk_rust.Error.{Error, Source}
use rociadb_core_sdk_rust.Client.{RociaDbClient}
use rociadb_core_sdk_rust.Client.Service.{Json}
use rociadb_core_sdk_rust.Document.{
  DocumentWriteOptions, Key, DocumentRpcs, put_document, get_document, default_document_request_id,
}
use rociadb_core_sdk_rust.Document.Store.{
  Store, Event, stored, loaded, removed, Step, stored_ok, stored_err, loaded_ok, loaded_err,
  removed_ok, removed_err, Steps, stay, go, put, get, Operation, perform, run, put_mark,
}
use rociadb_core_sdk_rust.Document.Store.Server.{DocumentServer, ReadsBack, documents}
use rociadb_core_sdk_rust.Document.Store.Operations.{perform-Step}

-- An event that does not write the document of a name.
abbrev pub LeavesAlone : {T : Type 0} → Key → Event T → Type 0
LeavesAlone key (stored k id v answer) = key ≢ k
LeavesAlone key (loaded k answer) = Unit
LeavesAlone key (removed k id answer) = key ≢ k

abbrev pub AllLeaveAlone : {T : Type 0} → Key → List (Event T) → Type 0
AllLeaveAlone key [] = Unit
AllLeaveAlone key (event ∷ rest) = LeavesAlone key event × AllLeaveAlone key rest

module _ {T : Type 0} where
  Step-leaves :
      {s s' : Store T} {event : Event T} (key : Key)
      → Step s s' event
      → LeavesAlone key event
      → s'.at key ≡ s.at key
  Step-leaves key (stored_ok (inl (is, other, new))) apart = other key apart
  Step-leaves key (stored_ok (inr (was, kept))) apart = kept.0 key
  Step-leaves key (stored_err (inl kept)) apart = kept.0 key
  Step-leaves key (stored_err (inr (is, other, new))) apart = other key apart
  Step-leaves key (loaded_ok is kept) apart = kept.0 key
  Step-leaves key (loaded_err kept) apart = kept.0 key
  Step-leaves key (removed_ok (inl (is, other, new))) apart = other key apart
  Step-leaves key (removed_ok (inr (was, kept))) apart = kept.0 key
  Step-leaves key (removed_err (inl kept)) apart = kept.0 key
  Step-leaves key (removed_err (inr (is, other, new))) apart = other key apart

  Steps-leave :
      {s s' : Store T} {events : List (Event T)} (key : Key)
      → Steps s events s'
      → AllLeaveAlone key events
      → s'.at key ≡ s.at key
  Steps-leave key stay apart = refl
  Steps-leave key (go step rest) (apart, others) =
      Steps-leave key rest others ∙ Step-leaves key step apart

  -- A write that answered, and whose mark was not in force, is what the next store holds.
  stored_is :
      {s s' : Store T} {key : Key} {id : String} {v : T} {answer : Result Error (Unit {0})}
      → answer ≡ ok tt
      → s.used (put_mark key id) ≡ false
      → Step s s' (stored key id v answer)
      → s'.at key ≡ some v
  stored_is done fresh (stored_ok (inl (is, other, new))) = is
  stored_is done fresh (stored_ok (inr (was, kept))) = absurd (cc (was, fresh))
  stored_is done fresh (stored_err maybe) = absurd (cc done)

  loaded_is :
      {s s' : Store T} {key : Key} {v : T} {answer : Result Error T}
      → answer ≡ ok v
      → Step s s' (loaded key answer)
      → s.at key ≡ some v
  loaded_is done (loaded_ok is kept) = is ∙ ap some (cc done)
  loaded_is done (loaded_err kept) = absurd (cc done)

module _ {W T : Type 0} (client : RociaDbClient W) (rpcs : DocumentRpcs W) (uuid : Action W String)
    (codec : Json T) (server : DocumentServer client rpcs uuid) (reads_back : ReadsBack codec)
    (link_json : String → String → Result Source (List ℕ)) where
  -- Against a service that stores documents (a write under a request id that it has a mark of changes
  -- nothing, and one that failed may have been carried out), with a
  -- codec that reads back what it wrote, every sequence of calls of put_document, get_document and
  -- delete_document, each with its token refresh and its replay, runs as the abstract store does: what
  -- the callers see is a sequence of its steps, from the documents before to the documents after.
  pub run-Steps :
      (operations : List (Operation T)) (w : W)
      → let (events, w') = run client rpcs uuid codec link_json operations w in
        Steps (documents codec server.docs w) events (documents codec server.docs w')
  unfolding run
  run-Steps [] w = stay
  run-Steps (operation ∷ rest) w =
      go (perform-Step client rpcs uuid codec server reads_back link_json operation w)
        (run-Steps rest (perform client rpcs uuid codec link_json operation w).1)

  -- A document that put_document stored is what get_document then loads, if both answer, the
  -- service has no mark of the request id for that document before, and what the caller does in
  -- between writes other names only.
  pub put_document-get_document :
      (key : Key) (value loaded_value : T) (options : DocumentWriteOptions)
      (between : List (Operation T)) (w : W)
      → let (answer, w1) = put_document client rpcs uuid codec link_json key value options w in
        let (events, w2) = run client rpcs uuid codec link_json between w1 in
        let id =
          (unwrap_or_else options.request_id
            (default_document_request_id uuid key.collection)
            w).0 in
        (server.docs w).used (put_mark key id) ≡ false
        → answer ≡ ok tt
        → AllLeaveAlone key events
        → (get_document client rpcs uuid codec key w2).0 ≡ ok loaded_value
        → loaded_value ≡ value
  unfolding perform
  put_document-get_document key value loaded_value options between w fresh done apart found =
      let (answer, w1) = put_document client rpcs uuid codec link_json key value options w in
      let (events, w2) = run client rpcs uuid codec link_json between w1 in
      let first : (documents codec server.docs w1).at key ≡ some value = stored_is done fresh (
        perform-Step client rpcs uuid codec server reads_back link_json (put key value options)
          w) in
      let last : (documents codec server.docs w2).at key ≡ some loaded_value =
        loaded_is found
          (perform-Step client rpcs uuid codec server reads_back link_json (get key) w2) in
      let same : (documents codec server.docs w2).at key ≡ (documents codec server.docs w1).at key =
        Steps-leave key (run-Steps between w1) apart in
      cc (first, last, same)
