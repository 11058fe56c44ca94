-- ===== src/File/Upload.antt =====
-- The upload messages of `src/file.rs`, and `chunk_upload_requests`, which cuts a file held in
-- memory. The chunk size is an argument; the client's is `default_chunk_size`.
pub mod Pieces
pub mod Counting
use Prim.Native.String.{String}
use rociadb_core_sdk_rust.Prelude.{
  ℕ, zero, suc, ◌+◌, ◌-◌, ◌*◌, ◌/◌, ◌%◌, min, Option, none, some, List, [], ◌∷◌, ◌==◌,
  if◌then◌else◌, length, take, drop, is_empty,
}

abbrev pub default_chunk_size : ℕ
default_chunk_size = 1048576

-- `pb::UploadRequest`.
pub record UploadRequest : Type 0 where
  pub tenant_id : String
  pub bucket : String
  pub file_id : String
  pub size_bytes : ℕ
  pub content_type : String
  pub checksum : List ℕ
  pub chunk : List ℕ
  pub request_id : String

pub record UploadMetadata : Type 0 where
  pub tenant_id : String
  pub bucket : String
  pub file_id : String
  pub content_type : String
  pub checksum : List ℕ
  pub request_id : String

-- `RechunkState::next_request`: the metadata goes into the first message only.
abbrev pub next_request : Option UploadMetadata → ℕ → List ℕ → UploadRequest
next_request (some m) size bytes = record {
  tenant_id = m.tenant_id;
  bucket = m.bucket;
  file_id = m.file_id;
  size_bytes = size;
  content_type = m.content_type;
  checksum = m.checksum;
  chunk = bytes;
  request_id = m.request_id;
}
next_request none size bytes = record {
  tenant_id = "";
  bucket = "";
  file_id = "";
  size_bytes = 0;
  content_type = "";
  checksum = [];
  chunk = bytes;
  request_id = "";
}

-- `u64::div_ceil`.
abbrev pub div_ceil : ℕ → ℕ → ℕ
div_ceil n d = if n % d == 0 then n / d else n / d + 1

module _ (chunk_size : ℕ) where
  -- A zero-byte file still needs one message.
  abbrev pub chunk_count : List ℕ → ℕ
  chunk_count bytes = if is_empty bytes then 1 else div_ceil (length bytes) chunk_size

  -- `bytes[start..end]` of the chunk at `index`.
  abbrev pub chunk_at : List ℕ → ℕ → List ℕ
  chunk_at bytes index =
      let start = index * chunk_size in
      let end = min (start + chunk_size) (length bytes) in take (end - start) (drop start bytes)

  -- The message at `index`. Its fields are taken out of the closure's six `Option`s, which are all
  -- `Some` before the first message and all `None` after it: `metadata` stands for the six.
  abbrev pub request_at : List ℕ → ℕ → Option UploadMetadata → UploadRequest
  request_at bytes index none = record {
    tenant_id = "";
    bucket = "";
    file_id = "";
    size_bytes = if index == 0 then length bytes else 0;
    content_type = "";
    checksum = [];
    chunk = chunk_at bytes index;
    request_id = "";
  }
  request_at bytes index (some m) = record {
    tenant_id = m.tenant_id;
    bucket = m.bucket;
    file_id = m.file_id;
    size_bytes = if index == 0 then length bytes else 0;
    content_type = m.content_type;
    checksum = m.checksum;
    chunk = chunk_at bytes index;
    request_id = m.request_id;
  }

  -- `left` messages from `index` on.
  unfoldable pub requests_from : List ℕ → ℕ → ℕ → Option UploadMetadata → List UploadRequest
  requests_from bytes zero index metadata = []
  requests_from bytes (suc left) index metadata =
      request_at bytes index metadata ∷ requests_from bytes left (index + 1) none

  unfoldable pub chunk_upload_requests : List ℕ → UploadMetadata → List UploadRequest
  chunk_upload_requests bytes metadata = requests_from bytes (chunk_count bytes) 0 (some metadata)
