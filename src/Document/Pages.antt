-- ===== src/Document/Pages.antt =====
-- What the reads of `src/document.rs` make of an answer's items, and of a limit of zero.
use Prim.Native.String.{String}
use rociadb_core_sdk_rust.Error.{Error, Source, validation, text, encode_context}
use rociadb_core_sdk_rust.Client.{RociaDbClient, page_request}
use rociadb_core_sdk_rust.Client.Service.{Rpc, Json}
use rociadb_core_sdk_rust.Document.Reads.{
  DocumentQueryFilter, DocumentQuerySort, ListDocRequest, FindByFieldRequest, QueryDocRequest,
  DocsResponse, ListCollectionsRequest, ListCollectionsResponse, build_query_filters,
  list_documents, search_documents, query_documents, list_collections,
}
use rociadb_core_sdk_rust.Prelude.{
  ℕ, ◌+◌, ◌≡◌, refl, inl, inr, Option, some, List, [], ◌∷◌, ◌++◌, length, Result, Result-cases,
  Action, ok, err,
}

-- Each item is read from the bytes at its place.
pub data ReadsAll {T : Type 0} (codec : Json T) : List (List ℕ) → List T → Type 0 where
  none_left : ReadsAll codec [] []
  one_more :
      {bytes : List ℕ} {rest : List (List ℕ)} {item : T} {items : List T}
      → codec.from_slice bytes ≡ ok item
      → ReadsAll codec rest items
      → ReadsAll codec (bytes ∷ rest) (item ∷ items)

-- Every item was read, or the first one that cannot be read is in the error.
pub data Decoded {T : Type 0} (codec : Json T) (label : ℕ → Source → Source) (index : ℕ)
    (json : List (List ℕ)) (answer : Result Source (List T)) : Type 0 where
  all_read :
      (items : List T)
      → ReadsAll codec json items
      → answer ≡ ok items
      → Decoded codec label index json answer
  one_unread :
      (before after : List (List ℕ)) (bytes : List ℕ) (items : List T) (e : Source)
      → json ≡ before ++ bytes ∷ after
      → ReadsAll codec before items
      → codec.from_slice bytes ≡ err e
      → answer ≡ err (label (index + length before) e)
      → Decoded codec label index json answer

-- An action that fails before anything is sent.
abbrev pub NothingSent : {W A : Type 0} → Action W (Result Error A) → W → Type 0
NothingSent read w = (e : Error) × (read w ≡ (err e, w))

module _ {W T V : Type 0} (client : RociaDbClient W) (codec : Json T) (label : ℕ → Source → Source)
    (value_codec : Json V) where
  -- Every paginated read refuses a limit of zero before it sends anything, whatever else it is given.
  pub zero_limit-NothingSent :
      (lists : Rpc W ListDocRequest DocsResponse) (finds : Rpc W FindByFieldRequest DocsResponse)
      (queries : Rpc W QueryDocRequest DocsResponse)
      (collections : Rpc W ListCollectionsRequest ListCollectionsResponse)
      (tenant_id collection field : String) (value : V) (filters : List (DocumentQueryFilter V))
      (sort : List DocumentQuerySort) (cursor : Option String) (w : W)
      → NothingSent (list_documents client codec label lists tenant_id collection (some 0) cursor) w
        × NothingSent
            (search_documents client codec label value_codec finds tenant_id collection field value
              (some 0)
              cursor)
            w
        × NothingSent
            (query_documents client codec label value_codec queries tenant_id collection filters
              sort
              (some 0)
              cursor)
            w
        × NothingSent (list_collections client collections tenant_id (some 0) cursor) w
  unfolding list_documents search_documents query_documents list_collections page_request
  zero_limit-NothingSent lists finds queries collections tenant_id collection field value filters
        sort cursor w =
      let zero_limit : Error = validation (text "page limit must be greater than zero") in
      let searched : NothingSent
          (search_documents client codec label value_codec finds tenant_id collection field value
            (some 0) cursor)
          w =
        elim (Result-cases (encode_context "search value" (value_codec.to_vec value))) [
          | inl (bytes, good) ↦ (zero_limit, rw good refl)
          | inr (e, bad) ↦ (e, rw bad refl)
        ] in
      let queried : NothingSent
          (query_documents client codec label value_codec queries tenant_id collection filters sort
            (some 0) cursor)
          w =
        elim (Result-cases (build_query_filters value_codec filters)) [
          | inl (proto, good) ↦ (zero_limit, rw good refl)
          | inr (e, bad) ↦ (e, rw bad refl)
        ] in
      ((zero_limit, refl), searched, queried, (zero_limit, refl))
