-- ===== src/Client/Service.antt =====
-- What the methods of the client share (`src/document.rs`, `src/graph.rs`, `src/file.rs`,
-- `src/tenant.rs`): an RPC of the generated client, a JSON codec, and a paginated read.
use Prim.Native.String.{String, ◌++◌}
use rociadb_core_sdk_rust.Prelude.Effect.{◌>>=◌, pure, lift}
use rociadb_core_sdk_rust.Prelude.{ℕ, Option, none, some, List, Result, Action}
use rociadb_core_sdk_rust.Duration.{Duration}
use rociadb_core_sdk_rust.Error.{Error, Status, Source}
use rociadb_core_sdk_rust.Client.{
  Request, RociaDbClient, Page, PageRequest, page_request, non_empty, unary, server_streaming,
}

-- A method of a generated client, with and without a deadline around it.
pub record Rpc (W Req Resp : Type 0) : Type 0 where
  pub call : Request Req → Action W (Result Status Resp)
  pub deadline : Duration → Request Req → Action W (Option (Result Status Resp))

-- `serde_json` at one type.
pub record Json (T : Type 0) : Type 0 where
  pub to_vec : T → Result Source (List ℕ)
  pub from_slice : List ℕ → Result Source T

-- `pb::PageResponse`.
pub record PageResponse : Type 0 where
  pub next_cursor : String

-- `page.and_then(|page| non_empty(page.next_cursor))`.
abbrev pub cursor_of : Option PageResponse → Option String
cursor_of none = none
cursor_of (some page) = non_empty page.next_cursor

-- A default request id: a prefix, and the UUID that `uuid` draws.
abbrev pub prefixed : {W : Type 0} → String → Action W String → Action W String
prefixed prefix uuid w = let (u, w') = uuid w in (prefix ++ u, w')

module _ {W : Type 0} (client : RociaDbClient W) where
  -- `self.unary(operation, request, ..).await?`.
  unfoldable pub send :
      {Req Resp : Type 0} → String → Rpc W Req Resp → Req → Action W (Result Error Resp)
  send operation rpc = unary client rpc.call rpc.deadline operation

  unfoldable pub open_stream :
      {Req Resp : Type 0} → String → Rpc W Req Resp → Req → Action W (Result Error Resp)
  open_stream operation rpc = server_streaming client rpc.call rpc.deadline operation

  -- The shape of every paginated read: a request around the page request, and a page of what the
  -- answer lists.
  abbrev pub list_page :
      {Req Resp T : Type 0}
      → String
      → Rpc W Req Resp
      → (Option PageRequest → Req)
      → (Resp → List T)
      → (Resp → Option PageResponse)
      → Option ℕ
      → Option String
      → Action W (Result Error (Page T))
  list_page operation rpc request items page limit cursor =
      lift (page_request limit cursor) >>= λ p. send operation rpc (request p) >>= λ response.
      pure (record { items = items response; next_cursor = cursor_of (page response) })
