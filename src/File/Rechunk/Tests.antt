-- ===== src/File/Rechunk/Tests.antt =====
-- Runs of the rechunking machine, and its theorems at concrete inputs, with chunks of four bytes.
use rociadb_core_sdk_rust.Prelude.{
  ◌≤◌, ◌≡◌, refl, ◌≢◌, ◌⊎◌, none, some, List, [], ◌∷◌, arith, ok, err,
}
use rociadb_core_sdk_rust.Error.{validation, more_than_declared, Error}
use rociadb_core_sdk_rust.File.Upload.{
  UploadRequest, UploadMetadata, chunk_upload_requests, next_request,
}
use rociadb_core_sdk_rust.File.Upload.Pieces.{payload, AreChunks, chunk_upload_requests_lem}
use rociadb_core_sdk_rust.File.Rechunk.{
  Item, RechunkState, turn, again, drain_pending, ingest, pull, drive, initial,
  rechunk_upload_requests,
}
use rociadb_core_sdk_rust.File.Rechunk.Spec.{IsWhole}
use rociadb_core_sdk_rust.File.Rechunk.Totality.{
  rechunk_upload_requests-verdict, rechunk_upload_requests-eq, here, round, rechunk_buffer_bounded,
}

abbrev metadata : UploadMetadata
metadata = record {
  tenant_id = "tenant";
  bucket = "bucket";
  file_id = "file";
  content_type = "text/plain";
  checksum = 1 ∷ 2 ∷ [];
  request_id = "request";
}

-- Six bytes in two items, then a failed read.
abbrev late_failure : List Item
late_failure = ok (1 ∷ 2 ∷ 3 ∷ 4 ∷ 5 ∷ []) ∷ ok (6 ∷ []) ∷ err 7 ∷ []

abbrev first_message : UploadRequest
first_message = next_request (some metadata) 6 (1 ∷ 2 ∷ 3 ∷ 4 ∷ [])

late_failure-run :
    rechunk_upload_requests 4 6 metadata late_failure
    ≡ some (first_message ∷ next_request none 6 (5 ∷ 6 ∷ []) ∷ [], none)
unfolding rechunk_upload_requests drive turn pull ingest drain_pending
late_failure-run = refl

long-run :
    rechunk_upload_requests 4 4 metadata late_failure
    ≡ some ([], some (validation (more_than_declared 4)))
unfolding rechunk_upload_requests drive turn pull ingest drain_pending
long-run = refl

verdict_example :
    (requests : List UploadRequest) × (rechunk_upload_requests 4 6 metadata late_failure
      ≡ some (requests, none))
verdict_example = rechunk_upload_requests-verdict 4 6 metadata late_failure (omega arith)

eq_example :
    (IsWhole 6 late_failure
      × (rechunk_upload_requests 4 6 metadata late_failure
          ≡ some (chunk_upload_requests 4 (1 ∷ 2 ∷ 3 ∷ 4 ∷ 5 ∷ 6 ∷ []) metadata, none)))
    ⊎ ((¬ IsWhole 6 late_failure)
        × (requests : List UploadRequest) × (e : Error) × (rechunk_upload_requests 4 6 metadata
              late_failure
            ≡ some (requests, some e)))
eq_example = rechunk_upload_requests-eq 4 6 metadata late_failure (omega arith)

abbrev after_first : RechunkState
after_first = record (initial 6 metadata late_failure) {
  source = ok (6 ∷ []) ∷ err 7 ∷ [];
  buffer = 1 ∷ 2 ∷ 3 ∷ 4 ∷ [];
  pending = 1 ∷ 2 ∷ 3 ∷ 4 ∷ 5 ∷ [];
  pending_offset = 4;
}

first_turn : turn 4 (initial 6 metadata late_failure) ≡ again after_first
unfolding turn pull ingest
first_turn = refl

bounded_example : (4 ≤ 4) × (4 ≤ 5) × (after_first.error_slot ≡ none)
bounded_example =
    rechunk_buffer_bounded 4 6 metadata late_failure after_first (omega arith)
      (round here first_turn)

cut_example :
    let requests = chunk_upload_requests 4 (1 ∷ 2 ∷ 3 ∷ 4 ∷ 5 ∷ []) metadata in
    (payload requests ≡ 1 ∷ 2 ∷ 3 ∷ 4 ∷ 5 ∷ []) × AreChunks 4 requests × (requests ≢ [])
cut_example = chunk_upload_requests_lem 4 (1 ∷ 2 ∷ 3 ∷ 4 ∷ 5 ∷ []) metadata (omega arith)
