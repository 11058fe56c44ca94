-- ===== src/File/Send/Tests.antt =====
-- Runs of the two uploads, and their theorems at concrete inputs, with chunks of four bytes.
use Prim.Native.String.{String}
use rociadb_core_sdk_rust.Prelude.{
  ℕ, ◌≤◌, ◌<◌, ◌≡◌, refl, ◌⊎◌, inl, inr, Bool, true, none, some, List, [], ◌∷◌, ◌++◌, arith,
  Bool-cases, length, Result, ok, err,
}
use rociadb_core_sdk_rust.Error.{Error, Status, is_unauthenticated}
use rociadb_core_sdk_rust.Client.{RociaDbClient, refresh_for_replay, refresh_token_before_stream}
use rociadb_core_sdk_rust.File.Upload.{
  UploadRequest, UploadMetadata, chunk_upload_requests, requests_from,
}
use rociadb_core_sdk_rust.File.Rechunk.{
  Item, rechunk_upload_requests, drive, turn, pull, ingest, drain_pending,
}
use rociadb_core_sdk_rust.File.Rechunk.Spec.{received}
use rociadb_core_sdk_rust.File.Send.{
  Target, FileStreamUploadOptions, default_options, new_stream_options, validate_file_size,
  upload_file, upload_file_chunked,
}
use rociadb_core_sdk_rust.File.Send.Uploads.{
  Ledger, upload_file_chunked_ok, upload_file_sent, memory_metadata,
}

-- The world is the streams that were sent.
abbrev World : Type 0
World = List (List UploadRequest)

abbrev client : RociaDbClient World
client = record {
  host = "http://127.0.0.1:50051";
  request_timeout = none;
  max_file_bytes = 8;
  token_manager = none;
}

abbrev target : Target
target = record { tenant_id = "tenant"; bucket = "bucket"; file_id = "file" }

abbrev new_request_id : World → String × World
new_request_id w = ("upload_file:1", w)

abbrev upload : List UploadRequest → World → (Bool × Result Status (Unit {0})) × World
upload rs w = ((true, ok tt), w ++ rs ∷ [])

ledger : Ledger client new_request_id upload
unfolding refresh_token_before_stream refresh_for_replay
ledger = record {
  sent = λ w. w;
  upload_sent = λ rs w. refl;
  id_sent = λ w. refl;
  before_sent = λ w. refl;
  replay_sent = λ e w. elim (Bool-cases (is_unauthenticated e)) [
    | inl unauth ↦ rw unauth refl
    | inr other ↦ rw other refl
  ];
  success_polled = λ rs w good. refl;
}

abbrev six_bytes : List Item
six_bytes = ok (1 ∷ 2 ∷ 3 ∷ 4 ∷ 5 ∷ []) ∷ ok (6 ∷ []) ∷ []

abbrev options : FileStreamUploadOptions
options = new_stream_options 6 (7 ∷ 8 ∷ [])

abbrev six_metadata : UploadMetadata
six_metadata = record {
  tenant_id = "tenant";
  bucket = "bucket";
  file_id = "file";
  content_type = "application/octet-stream";
  checksum = 7 ∷ 8 ∷ [];
  request_id = "upload_file:1";
}

abbrev six_sent : World
six_sent = chunk_upload_requests 4 (received six_bytes) six_metadata ∷ []

chunked-run :
    upload_file_chunked client 4 new_request_id upload target six_bytes options []
    ≡ some (ok tt, six_sent)
unfolding upload_file_chunked validate_file_size rechunk_upload_requests drive turn pull ingest
    drain_pending chunk_upload_requests requests_from refresh_token_before_stream
chunked-run = refl

upload_file_chunked_example :
    (length (received six_bytes) ≡ options.size_bytes)
    × (options.size_bytes ≤ 8)
    × (ledger.sent six_sent
        ≡ ledger.sent [] ++ chunk_upload_requests 4 (received six_bytes) six_metadata ∷ [])
upload_file_chunked_example =
    upload_file_chunked_ok client 4 new_request_id upload target ledger six_bytes options []
      six_sent (omega arith) chunked-run

abbrev three : List ℕ
three = 1 ∷ 2 ∷ 3 ∷ []

upload_file_sent_example :
    let (answer, w') =
      upload_file client 4 new_request_id upload target (λ b. b) three default_options [] in
    ((8 < length three) × (w' ≡ []) × (e : Error) × (answer ≡ err e))
    ⊎ ((length three ≤ 8)
        × let rs =
            chunk_upload_requests 4 three
              (memory_metadata target default_options three "upload_file:1") in
          (ledger.sent w' ≡ ledger.sent [] ++ rs ∷ [])
          ⊎ (ledger.sent w' ≡ ledger.sent [] ++ rs ∷ rs ∷ []))
upload_file_sent_example =
    upload_file_sent client 4 new_request_id upload target ledger (λ b. b) three default_options []
