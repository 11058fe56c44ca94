-- ===== src/File/Send.antt =====
-- `upload_file` and `upload_file_chunked` of `src/file.rs`.
--
-- SHA-256, the generator of request ids and the RPC are arguments. The RPC gets the messages that
-- the request stream will yield, and answers with whether it polled that stream to its end: the
-- stream writes its error slot only as it ends. Where the digest is computed, inline or on the
-- blocking pool, makes no difference here.
pub mod Uploads
mod Tests
use Prim.Native.String.{String}
use rociadb_core_sdk_rust.Prelude.{
  ℕ, ◌*◌, ◌≡◌, refl, ◌⊎◌, inl, inr, Bool, true, false, not, Option, none, some, List, ltb, leb,
  if◌then◌else◌, Bool-cases, unwrap_or, length, Result, Action, unwrap_or_else, ok, err,
}
use rociadb_core_sdk_rust.Error.{
  Error, Status, status_error, status_context, validation, file_too_large,
}
use rociadb_core_sdk_rust.Client.{RociaDbClient, refresh_for_replay, refresh_token_before_stream}
use rociadb_core_sdk_rust.File.Upload.{UploadRequest, UploadMetadata, chunk_upload_requests}
use rociadb_core_sdk_rust.File.Rechunk.{Item, rechunk_upload_requests}

abbrev pub upload_operation : String
upload_operation = "failed to upload file"

abbrev pub default_content_type : String
default_content_type = "application/octet-stream"

pub record FileUploadOptions : Type 0 where
  pub content_type : String
  pub checksum : Option (List ℕ)
  pub request_id : Option String

abbrev pub default_options : FileUploadOptions
default_options = record { content_type = default_content_type; checksum = none; request_id = none }

pub record FileStreamUploadOptions : Type 0 where
  pub size_bytes : ℕ
  pub checksum : List ℕ
  pub content_type : String
  pub request_id : Option String

abbrev pub new_stream_options : ℕ → List ℕ → FileStreamUploadOptions
new_stream_options size_bytes checksum = record {
  size_bytes = size_bytes;
  checksum = checksum;
  content_type = default_content_type;
  request_id = none;
}

abbrev pub resolve_checksum : (List ℕ → List ℕ) → Option (List ℕ) → List ℕ → List ℕ
resolve_checksum digest (some checksum) bytes = checksum
resolve_checksum digest none bytes = digest bytes

-- `INLINE_CHECKSUM_LIMIT`, which is `DEFAULT_CHUNK_SIZE`.
abbrev pub inline_checksum_limit : ℕ
inline_checksum_limit = 1024 * 1024

-- `spawn_blocking` is what becomes of the digest on the blocking pool, `none` if its task is lost.
unfoldable pub resolve_checksum_offloaded :
    (List ℕ → List ℕ) → (List ℕ → Option (List ℕ)) → Option (List ℕ) → List ℕ → List ℕ
resolve_checksum_offloaded digest spawn_blocking (some checksum) bytes = checksum
resolve_checksum_offloaded digest spawn_blocking none bytes =
    let here = resolve_checksum digest none bytes in
    if leb (length bytes) inline_checksum_limit
    then here
    else unwrap_or (spawn_blocking (resolve_checksum digest none bytes)) here

-- Wherever the digest is computed, and though the pool may lose the task, it is the same.
resolve_checksum_offloaded_lem :
    (digest : List ℕ → List ℕ) (spawn_blocking : List ℕ → Option (List ℕ))
    (checksum : Option (List ℕ)) (bytes : List ℕ)
    → ((result : List ℕ) → (spawn_blocking result ≡ none) ⊎ (spawn_blocking result ≡ some result))
    → resolve_checksum_offloaded digest spawn_blocking checksum bytes
      ≡ resolve_checksum digest checksum bytes
unfolding resolve_checksum_offloaded
resolve_checksum_offloaded_lem digest spawn_blocking (some checksum) bytes runs = refl
resolve_checksum_offloaded_lem digest spawn_blocking none bytes runs =
    elim (Bool-cases (leb (length bytes) inline_checksum_limit)) [
      | inl small ↦ rw (small, resolve_checksum_offloaded) refl
      | inr large ↦ elim (runs (digest bytes)) [
        | inl lost ↦ rw (large, resolve_checksum_offloaded) (rw lost refl)
        | inr ran ↦ rw (large, resolve_checksum_offloaded) (rw ran refl)
      ]
    ]

unfoldable pub validate_file_size : ℕ → ℕ → Result Error (Unit {0})
validate_file_size size max_file_bytes =
    if ltb max_file_bytes size then err (validation (file_too_large size max_file_bytes)) else ok tt

-- Where a file goes.
pub record Target : Type 0 where
  pub tenant_id : String
  pub bucket : String
  pub file_id : String

module _ {W : Type 0} (client : RociaDbClient W) (chunk_size : ℕ) (new_request_id : Action W String)
    (upload : List UploadRequest → Action W (Bool × Result Status (Unit {0})))
    (target : Target) where
  -- The token is refreshed before the stream begins.
  abbrev pub upload_raw : List UploadRequest → Action W (Bool × Result Status (Unit {0}))
  upload_raw requests w = upload requests (refresh_token_before_stream client w)

  -- The caller's own messages.
  unfoldable pub upload_file_stream : List UploadRequest → Action W (Result Error (Unit {0}))
  upload_file_stream requests w =
      let (answer, w') = upload_raw requests w in (status_context upload_operation answer.1, w')

  -- The two attempts of `upload_file`, on the same messages.
  unfoldable pub upload_with_replay : List UploadRequest → Action W (Result Error (Unit {0}))
  upload_with_replay requests w =
      let (answer, w') = upload_raw requests w in
      elim answer.1 [
        | ok u ↦ (ok tt, w')
        | err status ↦
            let error = status_error upload_operation status in
            let (again, w'') = refresh_for_replay client error w' in
            let (second, w''') = upload_raw requests w'' in
            if not again then (err error, w'') else (status_context upload_operation second.1, w''')
      ]

  unfoldable pub upload_file :
      (List ℕ → List ℕ) → List ℕ → FileUploadOptions → Action W (Result Error (Unit {0}))
  upload_file digest bytes options w =
      elim (validate_file_size (length bytes) client.max_file_bytes) [
        | err e ↦ (err e, w)
        | ok _ ↦
            let (request_id, w') = unwrap_or_else options.request_id new_request_id w in
            upload_with_replay
              (chunk_upload_requests chunk_size bytes (record {
                tenant_id = target.tenant_id;
                bucket = target.bucket;
                file_id = target.file_id;
                content_type = options.content_type;
                checksum = resolve_checksum digest options.checksum bytes;
                request_id = request_id;
              }))
              w'
      ]

  -- The error that the request stream left, if it was polled to its end, comes before the server's
  -- answer.
  abbrev pub chunked_answer :
      Option Error → Bool × Result Status (Unit {0}) → Result Error (Unit {0})
  chunked_answer (some e) (true, answer) = err e
  chunked_answer none (true, answer) = status_context upload_operation answer
  chunked_answer slot (false, answer) = status_context upload_operation answer

  -- `none` stands for a request stream that does not end.
  unfoldable pub upload_file_chunked :
      List Item → FileStreamUploadOptions → W → Option (Result Error (Unit {0}) × W)
  upload_file_chunked chunks options w =
      elim (validate_file_size options.size_bytes client.max_file_bytes) [
        | err e ↦ some (err e, w)
        | ok _ ↦
            let (request_id, w') = unwrap_or_else options.request_id new_request_id w in
            let metadata : UploadMetadata = record {
              tenant_id = target.tenant_id;
              bucket = target.bucket;
              file_id = target.file_id;
              content_type = options.content_type;
              checksum = options.checksum;
              request_id = request_id;
            } in
            elim (rechunk_upload_requests chunk_size options.size_bytes metadata chunks) [
              | none ↦ none
              | some (requests, slot) ↦
                  let (answer, w'') = upload_raw requests w' in
                  some (chunked_answer slot answer, w'')
            ]
      ]
