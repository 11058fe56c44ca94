-- ===== src/File/Calls.antt =====
-- The methods of `src/file.rs` that read, list, download and delete files, and the setters of its
-- option types.
--
-- The caller's writer has a state of its own beside the world. A response stream that is opened is
-- the list of the messages that it will yield.
pub mod Downloads
mod Tests
use Prim.Native.String.{String}
use rociadb_core_sdk_rust.Prelude.Effect.{◌>>=◌, pure, always}
use rociadb_core_sdk_rust.Prelude.{
  ℕ, Option, some, List, [], ◌∷◌, ◌++◌, Result, Action, unwrap_or_else, ok, err,
}
use rociadb_core_sdk_rust.Error.{Error, Status, status_context}
use rociadb_core_sdk_rust.Client.{
  RociaDbClient, Page, PageRequest, WriteOptions, refresh_token_before_stream,
}
use rociadb_core_sdk_rust.Client.Service.{prefixed, Rpc, PageResponse, send, open_stream, list_page}
use rociadb_core_sdk_rust.File.Timestamp.Instants.{FileTimestamp, new_timestamp}
use rociadb_core_sdk_rust.File.Download.{FileMetadata, Writer, download_verified_into}
use rociadb_core_sdk_rust.File.Send.{default_options, FileUploadOptions, FileStreamUploadOptions}

abbrev pub download_operation : String
download_operation = "failed to start file download"

-- `FileUploadOptions::new`.
abbrev pub new_options : FileUploadOptions
new_options = default_options

abbrev pub default_upload_file_request_id : {W : Type 0} → Action W String → Action W String
default_upload_file_request_id uuid = prefixed "upload_file:" uuid

abbrev pub with_content_type : String → FileUploadOptions → FileUploadOptions
with_content_type content_type o = record o { content_type = content_type }

abbrev pub with_checksum : List ℕ → FileUploadOptions → FileUploadOptions
with_checksum checksum o = record o { checksum = some checksum }

abbrev pub with_request_id : String → FileUploadOptions → FileUploadOptions
with_request_id id o = record o { request_id = some id }

abbrev pub stream_with_content_type : String → FileStreamUploadOptions → FileStreamUploadOptions
stream_with_content_type content_type o = record o { content_type = content_type }

abbrev pub stream_with_request_id : String → FileStreamUploadOptions → FileStreamUploadOptions
stream_with_request_id id o = record o { request_id = some id }

-- A file's name.
pub record FileKey : Type 0 where
  pub tenant_id : String
  pub bucket : String
  pub file_id : String

-- `pb::StatResponse`; the two times are texts.
pub record StatResponse : Type 0 where
  pub size_bytes : ℕ
  pub content_type : String
  pub checksum : List ℕ
  pub created_at : List ℕ
  pub updated_at : List ℕ

-- `FileMetadata::from`.
abbrev pub metadata_from : StatResponse → FileMetadata
metadata_from response = record {
  size_bytes = response.size_bytes;
  content_type = response.content_type;
  checksum = response.checksum;
  created_at = new_timestamp response.created_at;
  updated_at = new_timestamp response.updated_at;
}

pub record ListBucketsRequest : Type 0 where
  pub tenant_id : String
  pub page : Option PageRequest

pub record ListBucketsResponse : Type 0 where
  pub buckets : List String
  pub page : Option PageResponse

pub record ListFilesRequest : Type 0 where
  pub tenant_id : String
  pub bucket : String
  pub page : Option PageRequest

pub record ListFilesResponse : Type 0 where
  pub file_ids : List String
  pub page : Option PageResponse

pub record DeleteRequest : Type 0 where
  pub tenant_id : String
  pub bucket : String
  pub file_id : String
  pub request_id : String

-- `pb::StatRequest` and `pb::DownloadRequest` hold a file's name and no more.
pub record FileRpcs (W : Type 0) : Type 0 where
  pub stat : Rpc W FileKey StatResponse
  pub download : Rpc W FileKey (List (Result Status (List ℕ)))
  pub list_buckets : Rpc W ListBucketsRequest ListBucketsResponse
  pub list_files : Rpc W ListFilesRequest ListFilesResponse
  pub delete : Rpc W DeleteRequest (Unit {0})

-- A `Vec<u8>` as a writer.
abbrev pub vec_writer : Writer (List ℕ)
vec_writer = record { write_all = λ b bytes. (ok tt, bytes ++ b); flush = λ bytes. (ok tt, bytes) }

-- The loop over `stream.message()` of `download_file`.
abbrev pub read_all : List (Result Status (List ℕ)) → List ℕ → Result Error (List ℕ)
read_all [] bytes = ok bytes
read_all (ok chunk ∷ rest) bytes = read_all rest (bytes ++ chunk)
read_all (err s ∷ rest) bytes = status_context "file download stream failed" (err s)

module _ {W : Type 0} (client : RociaDbClient W) (rpcs : FileRpcs W) where
  unfoldable pub stat_file : FileKey → Action W (Result Error FileMetadata)
  stat_file key =
      send client "failed to stat file" rpcs.stat key >>= λ response. pure (metadata_from response)

  unfoldable pub list_buckets :
      String → Option ℕ → Option String → Action W (Result Error (Page String))
  list_buckets tenant_id limit cursor =
      list_page client "failed to list buckets" rpcs.list_buckets
        (λ page. record { tenant_id = tenant_id; page = page }) (λ response. response.buckets)
        (λ response. response.page) limit cursor

  unfoldable pub list_files :
      String → String → Option ℕ → Option String → Action W (Result Error (Page String))
  list_files tenant_id bucket limit cursor =
      list_page client "failed to list files" rpcs.list_files
        (λ page. record { tenant_id = tenant_id; bucket = bucket; page = page })
        (λ response. response.file_ids) (λ response. response.page) limit cursor

  abbrev pub default_delete_file_request_id : Action W String → Action W String
  default_delete_file_request_id uuid = prefixed "delete_file:" uuid

  unfoldable pub delete_file :
      Action W String → FileKey → WriteOptions → Action W (Result Error (Unit {0}))
  delete_file uuid key options =
      always (unwrap_or_else options.request_id (default_delete_file_request_id uuid))
      >>= λ request_id.
          send client "failed to delete file" rpcs.delete (record {
            tenant_id = key.tenant_id;
            bucket = key.bucket;
            file_id = key.file_id;
            request_id = request_id;
          })
          >>= λ u. pure tt

  unfoldable pub download_file_stream :
      FileKey → Action W (Result Error (List (Result Status (List ℕ))))
  download_file_stream key w =
      open_stream client download_operation rpcs.download key (refresh_token_before_stream client w)

  unfoldable pub download_file : FileKey → Action W (Result Error (List ℕ))
  download_file key = download_file_stream key >>= λ stream w. (read_all stream [], w)

  module _ (digest : List ℕ → List ℕ) where
    -- The answer, the world and the writer's state.
    unfoldable pub download_file_verified_to :
        {V : Type 0} → Writer V → FileKey → W → V → Result Error ℕ × W × V
    download_file_verified_to writer key w v =
        let (found, w1) = stat_file key w in
        elim found [
          | err e ↦ (err e, w1, v)
          | ok metadata ↦
              let (opened, w2) = download_file_stream key w1 in
              let (answer, v') = download_verified_into digest writer metadata opened v in
              (answer, w2, v')
        ]

    unfoldable pub download_file_verified : FileKey → Action W (Result Error (List ℕ))
    download_file_verified key w =
        let (answer, w', bytes) = download_file_verified_to vec_writer key w [] in
        (elim answer [ err e ↦ err e | ok written ↦ ok bytes ], w')
