-- ===== src/Document/Store.antt =====
-- `put_document`, `get_document` and `delete_document` of `src/document.rs` as operations on a store
-- of documents, and what that store promises.
pub mod Server
pub mod Operations
pub mod Runs
use Prim.Native.String.{String}
use rociadb_core_sdk_rust.Prelude.{
  ℕ, ◌≡◌, ◌≢◌, ◌⊎◌, Option, none, some, List, [], ◌∷◌, Result, Action, ok, err, Bool, true,
  unwrap_or_else,
}
use rociadb_core_sdk_rust.Error.{Error, Source}
use rociadb_core_sdk_rust.Client.{RociaDbClient, WriteOptions}
use rociadb_core_sdk_rust.Client.Service.{Json}
use rociadb_core_sdk_rust.Document.{
  DocumentWriteOptions, Key, DocumentRpcs, put_document, get_document, delete_document,
  default_document_request_id, default_delete_document_request_id,
}

-- What a service remembers of a write that it has carried out: the operation, its target and its
-- request id.
pub data Mark : Type 0 where
  put_mark : Key → String → Mark
  delete_mark : Key → String → Mark

-- The abstract view: a partial map from names to documents, and the marks that are in force. A mark
-- may expire at any time, and only a write sets one, its own.
pub record Store (T : Type 0) : Type 0 where
  pub at : Key → Option T
  pub used : Mark → Bool

abbrev pub Keeps : {T : Type 0} → Store T → Store T → Type 0
Keeps s s' = ((k : Key) → s'.at k ≡ s.at k) × ((m : Mark) → s'.used m ≡ true → s.used m ≡ true)

-- Only the document of one name changes, and only one mark may be new.
abbrev pub Puts : {T : Type 0} → Mark → Key → Option T → Store T → Store T → Type 0
Puts mark key o s s' =
    (s'.at key ≡ o)
    × ((k : Key) → k ≢ key → s'.at k ≡ s.at k)
    × ((m : Mark) → s'.used m ≡ true → (s.used m ≡ true) ⊎ (m ≡ mark))

-- What a write that succeeded has done: the write, or nothing if its mark was in force.
abbrev pub PutsOnce : {T : Type 0} → Mark → Key → Option T → Store T → Store T → Type 0
PutsOnce mark key o s s' = Puts mark key o s s' ⊎ ((s.used mark ≡ true) × Keeps s s')

-- What a write that failed may have done.
abbrev pub MayPut : {T : Type 0} → Mark → Key → Option T → Store T → Store T → Type 0
MayPut mark key o s s' = Keeps s s' ⊎ Puts mark key o s s'

-- An operation, with the request id that it carried, and how it ended.
pub data Event (T : Type 0) : Type 0 where
  stored : Key → String → T → Result Error (Unit {0}) → Event T
  loaded : Key → Result Error T → Event T
  removed : Key → String → Result Error (Unit {0}) → Event T

-- The abstract operations.
pub data Step {T : Type 0} (s s' : Store T) : Event T → Type 0 where
  stored_ok :
      {key : Key} {id : String} {v : T}
      → PutsOnce (put_mark key id) key (some v) s s'
      → Step s s' (stored key id v (ok tt))
  stored_err :
      {key : Key} {id : String} {v : T} {e : Error}
      → MayPut (put_mark key id) key (some v) s s'
      → Step s s' (stored key id v (err e))
  loaded_ok : {key : Key} {v : T} → s.at key ≡ some v → Keeps s s' → Step s s' (loaded key (ok v))
  loaded_err : {key : Key} {e : Error} → Keeps s s' → Step s s' (loaded key (err e))
  removed_ok :
      {key : Key} {id : String}
      → PutsOnce (delete_mark key id) key none s s'
      → Step s s' (removed key id (ok tt))
  removed_err :
      {key : Key} {id : String} {e : Error}
      → MayPut (delete_mark key id) key none s s'
      → Step s s' (removed key id (err e))

pub data Steps {T : Type 0} : Store T → List (Event T) → Store T → Type 0 where
  stay : {s : Store T} → Steps s [] s
  go :
      {s m s' : Store T} {event : Event T} {rest : List (Event T)}
      → Step s m event
      → Steps m rest s'
      → Steps s (event ∷ rest) s'

-- An operation that a caller asks for.
pub data Operation (T : Type 0) : Type 0 where
  put : Key → T → DocumentWriteOptions → Operation T
  get : Key → Operation T
  delete : Key → WriteOptions → Operation T

module _ {W T : Type 0} (client : RociaDbClient W) (rpcs : DocumentRpcs W) (uuid : Action W String)
    (codec : Json T) (link_json : String → String → Result Source (List ℕ)) where
  unfoldable pub perform : Operation T → Action W (Event T)
  perform (put key value options) w =
      let (answer, w') = put_document client rpcs uuid codec link_json key value options w in
      let id =
        (unwrap_or_else options.request_id (default_document_request_id uuid key.collection) w).0 in
      (stored key id value answer, w')
  perform (get key) w =
      let (answer, w') = get_document client rpcs uuid codec key w in (loaded key answer, w')
  perform (delete key options) w =
      let (answer, w') = delete_document client rpcs uuid codec key options w in
      let id =
        (unwrap_or_else options.request_id (default_delete_document_request_id uuid key.collection)
          w).0 in
      (removed key id answer, w')

  -- One operation after the other.
  unfoldable pub run : List (Operation T) → Action W (List (Event T))
  run [] w = ([], w)
  run (operation ∷ rest) w =
      let (event, w') = perform operation w in
      let (events, w'') = run rest w' in (event ∷ events, w'')
