-- ===== src/File/Calls/Tests.antt =====
-- Runs of the file methods, and their theorem at a concrete input.
use rociadb_core_sdk_rust.Prelude.{
  ℕ, ◌+◌, ◌<◌, ◌≡◌, refl, ap, none, some, List, [], ◌∷◌, arith, max_u64, ok,
}
use rociadb_core_sdk_rust.Client.{
  RociaDbClient, attempt, attempt_with_replay, refresh_token_before_stream,
}
use rociadb_core_sdk_rust.Client.Service.{Rpc, send, open_stream}
use rociadb_core_sdk_rust.File.Download.{
  FileMetadata, record_chunk, finish, absorb, receive, download_verified_into,
}
use rociadb_core_sdk_rust.File.Calls.{
  FileKey, FileRpcs, StatResponse, stat_file, download_file, download_file_stream,
  download_file_verified, download_file_verified_to,
}
use rociadb_core_sdk_rust.File.Calls.Downloads.{Checked, download_file_verified-Checked}

-- A method that answers in time. The world counts the calls.
abbrev answering : {Req Resp : Type 0} → (Req → Resp) → Rpc ℕ Req Resp
answering f = record {
  call = λ r w. (ok (f r.message), w + 1);
  deadline = λ t r w. (some (ok (f r.message)), w + 1);
}

-- A digest of one number: the bytes' sum.
abbrev sum : List ℕ → ℕ
sum [] = 0
sum (b ∷ bs) = b + sum bs

abbrev digest : List ℕ → List ℕ
digest bs = sum bs ∷ []

abbrev stat_response : StatResponse
stat_response = record {
  size_bytes = 3;
  content_type = "text/plain";
  checksum = 6 ∷ [];
  created_at = [];
  updated_at = [];
}

abbrev rpcs : FileRpcs ℕ
rpcs = record {
  stat = answering (λ key. stat_response);
  download = answering (λ key. ok (1 ∷ 2 ∷ []) ∷ ok (3 ∷ []) ∷ []);
  list_buckets = answering (λ r. record { buckets = []; page = none });
  list_files = answering (λ r. record { file_ids = []; page = none });
  delete = answering (λ r. tt);
}

abbrev client : RociaDbClient ℕ
client = record {
  host = "http://127.0.0.1:50051";
  request_timeout = none;
  max_file_bytes = 1024;
  token_manager = none;
}

abbrev key : FileKey
key = record { tenant_id = "t"; bucket = "b"; file_id = "f" }

verified : download_file_verified client rpcs digest key 0 ≡ (ok (1 ∷ 2 ∷ 3 ∷ []), 2)
unfolding download_file_verified download_file_verified_to stat_file download_file_stream send
    open_stream attempt_with_replay attempt refresh_token_before_stream download_verified_into
    receive absorb record_chunk finish
verified = refl

plain : download_file client rpcs key 0 ≡ (ok (1 ∷ 2 ∷ 3 ∷ []), 1)
unfolding download_file download_file_stream open_stream attempt_with_replay attempt
    refresh_token_before_stream
plain = refl

stat_fits : (m : FileMetadata) → (stat_file client rpcs key 0).0 ≡ ok m → m.size_bytes < max_u64
unfolding stat_file send attempt_with_replay attempt
stat_fits m has = ground arith

download_file_verified-Checked_example : Checked client rpcs digest key 0 (1 ∷ 2 ∷ 3 ∷ [])
download_file_verified-Checked_example =
    download_file_verified-Checked client rpcs digest key 0 stat_fits (1 ∷ 2 ∷ 3 ∷ [])
      (ap (λ r. r.0) verified)
