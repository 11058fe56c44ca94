-- ===== src/Document/Reads.antt =====
-- The reads of `src/document.rs` that list documents: pages, filters and sorts.
use Prim.Native.String.{String}
use rociadb_core_sdk_rust.Prelude.Effect.{◌>>=◌, lift}
use rociadb_core_sdk_rust.Prelude.{
  ℕ, ◌+◌, Option, List, [], ◌∷◌, map, Result, map_err, Action, collect, ok, err,
}
use rociadb_core_sdk_rust.Error.{Error, Source, encode_context, decode_context}
use rociadb_core_sdk_rust.Client.{RociaDbClient, Page, PageRequest, page_request}
use rociadb_core_sdk_rust.Client.Service.{Rpc, Json, PageResponse, cursor_of, send, list_page}

pub record DocumentPage (T : Type 0) : Type 0 where
  pub items : List T
  pub next_cursor : Option String
  pub total_count : ℕ

pub data DocumentQueryOperator : Type 0 where
  equal_to one_of contains : DocumentQueryOperator

-- The numbers of `pb::QueryOperator`.
abbrev pub operator_as_proto : DocumentQueryOperator → ℕ
operator_as_proto equal_to = 1
operator_as_proto one_of = 2
operator_as_proto contains = 3

pub data DocumentQuerySortDirection : Type 0 where
  asc desc : DocumentQuerySortDirection

-- The numbers of `pb::SortDirection`.
abbrev pub direction_as_proto : DocumentQuerySortDirection → ℕ
direction_as_proto asc = 1
direction_as_proto desc = 2

pub record DocumentQueryFilter (Value : Type 0) : Type 0 where
  pub field : String
  pub operator : DocumentQueryOperator
  pub values : List Value

abbrev pub new_filter :
    {Value : Type 0} → String → DocumentQueryOperator → List Value → DocumentQueryFilter Value
new_filter field operator values = record { field = field; operator = operator; values = values }

pub record DocumentQuerySort : Type 0 where
  pub field : String
  pub direction : DocumentQuerySortDirection

abbrev pub new_sort : String → DocumentQuerySortDirection → DocumentQuerySort
new_sort field direction = record { field = field; direction = direction }

pub record QueryFilter : Type 0 where
  pub field : String
  pub operator : ℕ
  pub values_json : List (List ℕ)

pub record QuerySort : Type 0 where
  pub field : String
  pub direction : ℕ

-- The requests of the reads, and what an answer lists.
pub record ListDocRequest : Type 0 where
  pub tenant_id : String
  pub collection : String
  pub page : Option PageRequest

pub record FindByFieldRequest : Type 0 where
  pub tenant_id : String
  pub collection : String
  pub field : String
  pub value_json : List ℕ
  pub page : Option PageRequest

pub record QueryDocRequest : Type 0 where
  pub tenant_id : String
  pub collection : String
  pub filters : List QueryFilter
  pub sort : List QuerySort
  pub page : Option PageRequest

pub record DocsResponse : Type 0 where
  pub json : List (List ℕ)
  pub page : Option PageResponse
  pub total_count : ℕ

pub record ListCollectionsRequest : Type 0 where
  pub tenant_id : String
  pub page : Option PageRequest

pub record CollectionInfo : Type 0 where
  pub collection : String
  pub count : ℕ

pub record ListCollectionsResponse : Type 0 where
  pub collections : List CollectionInfo
  pub page : Option PageResponse

-- A value that `serde_json` cannot write is the error of the whole query.
abbrev pub build_query_filter :
    {Value : Type 0} → Json Value → DocumentQueryFilter Value → Result Error QueryFilter
build_query_filter codec filter =
    elim (encode_context "query filter value" (collect codec.to_vec filter.values)) [
      | err e ↦ err e
      | ok values_json ↦ ok (record {
        field = filter.field;
        operator = operator_as_proto filter.operator;
        values_json = values_json;
      })
    ]

unfoldable pub build_query_filters :
    {Value : Type 0}
    → Json Value
    → List (DocumentQueryFilter Value)
    → Result Error (List QueryFilter)
build_query_filters codec filters = collect (build_query_filter codec) filters

abbrev pub sort_as_proto : DocumentQuerySort → QuerySort
sort_as_proto sort = record { field = sort.field; direction = direction_as_proto sort.direction }

-- An item that cannot be read: its index goes into the error.
abbrev pub at_index : {A : Type 0} → (ℕ → Source → Source) → ℕ → Result Source A → Result Source A
at_index label index = map_err (label index)

-- `enumerate`, `map` and `collect` from an index on.
abbrev pub decode_from :
    {T : Type 0} → Json T → (ℕ → Source → Source) → ℕ → List (List ℕ) → Result Source (List T)
decode_from codec label index [] = ok []
decode_from codec label index (bytes ∷ rest) =
    elim (at_index label index (codec.from_slice bytes)) [
      | err e ↦ err e
      | ok item ↦ elim (decode_from codec label (index + 1) rest) [
        | err e ↦ err e
        | ok items ↦ ok (item ∷ items)
      ]
    ]

-- `label` is the error that `serde_json` makes of an index and an item's own error.
unfoldable pub decode_document_page :
    {T : Type 0}
    → Json T
    → (ℕ → Source → Source)
    → List (List ℕ)
    → Option PageResponse
    → Result Source (List T × Option String)
decode_document_page codec label json page = elim (decode_from codec label 0 json) [
  | err e ↦ err e
  | ok items ↦ ok (items, cursor_of page)
]

module _ {W T : Type 0} (client : RociaDbClient W) (codec : Json T)
    (label : ℕ → Source → Source) where
  -- How the three reads that count their matches end.
  abbrev pub document_page : String → DocsResponse → Result Error (DocumentPage T)
  document_page context response =
      elim (decode_context context (decode_document_page codec label response.json response.page)) [
        | err e ↦ err e
        | ok (items, next_cursor) ↦ ok (record {
          items = items;
          next_cursor = next_cursor;
          total_count = response.total_count;
        })
      ]

  unfoldable pub list_documents :
      Rpc W ListDocRequest DocsResponse
      → String
      → String
      → Option ℕ
      → Option String
      → Action W (Result Error (DocumentPage T))
  list_documents rpc tenant_id collection limit cursor =
      lift (page_request limit cursor) >>= λ page.
      send client "failed to list documents" rpc
        (record { tenant_id = tenant_id; collection = collection; page = page })
      >>= λ response. lift (document_page "listed documents" response)

  unfoldable pub search_documents :
      {V : Type 0}
      → Json V
      → Rpc W FindByFieldRequest DocsResponse
      → String
      → String
      → String
      → V
      → Option ℕ
      → Option String
      → Action W (Result Error (DocumentPage T))
  search_documents value_codec rpc tenant_id collection search_field value limit cursor =
      lift (encode_context "search value" (value_codec.to_vec value)) >>= λ value_json.
      lift (page_request limit cursor) >>= λ page.
      send client "failed to search documents" rpc (record {
        tenant_id = tenant_id;
        collection = collection;
        field = search_field;
        value_json = value_json;
        page = page;
      })
      >>= λ response. lift (document_page "search results" response)

  unfoldable pub query_documents :
      {V : Type 0}
      → Json V
      → Rpc W QueryDocRequest DocsResponse
      → String
      → String
      → List (DocumentQueryFilter V)
      → List DocumentQuerySort
      → Option ℕ
      → Option String
      → Action W (Result Error (DocumentPage T))
  query_documents value_codec rpc tenant_id collection filters sort limit cursor =
      lift (build_query_filters value_codec filters) >>= λ proto_filters.
      lift (page_request limit cursor) >>= λ page.
      send client "failed to query documents" rpc (record {
        tenant_id = tenant_id;
        collection = collection;
        filters = proto_filters;
        sort = map sort_as_proto sort;
        page = page;
      })
      >>= λ response. lift (document_page "queried documents" response)

module _ {W : Type 0} (client : RociaDbClient W) where
  unfoldable pub list_collections :
      Rpc W ListCollectionsRequest ListCollectionsResponse
      → String
      → Option ℕ
      → Option String
      → Action W (Result Error (Page CollectionInfo))
  list_collections rpc tenant_id limit cursor =
      list_page client "failed to list collections" rpc
        (λ page. record { tenant_id = tenant_id; page = page }) (λ response. response.collections)
        (λ response. response.page) limit cursor
