-- ===== src/File/Send/Uploads.antt =====
-- What the two uploads of `src/file.rs` send, and when they succeed.
use Prim.Native.String.{String}
use mathlib.Core.List.{append_assoc}
use rociadb_core_sdk_rust.Prelude.{
  ℕ, ◌≤◌, ◌<◌, ◌≡◌, refl, sym, ap, ◌∙◌, ◌⊎◌, inl, inr, Bool, true, false, Option, none, some, List,
  [], ◌∷◌, ◌++◌, arith, Bool-cases, length, Result, Result-cases, Action, unwrap_or_else, ok, err,
  unwrap_or,
}
use rociadb_core_sdk_rust.Error.{Error, Status, status_error}
use rociadb_core_sdk_rust.Client.{RociaDbClient, refresh_for_replay, refresh_token_before_stream}
use rociadb_core_sdk_rust.File.Upload.{UploadRequest, UploadMetadata, chunk_upload_requests}
use rociadb_core_sdk_rust.File.Rechunk.{Item}
use rociadb_core_sdk_rust.File.Rechunk.Spec.{received, verdict}
use rociadb_core_sdk_rust.File.Rechunk.Totality.{
  rechunk_upload_requests-verdict, rechunk-after_good_verdict,
}
use rociadb_core_sdk_rust.File.Send.{
  Target, FileUploadOptions, FileStreamUploadOptions, upload_operation, resolve_checksum,
  validate_file_size, upload_raw, upload_with_replay, upload_file, chunked_answer,
  upload_file_chunked,
}

validate_file_size_ok : (size limit : ℕ) → validate_file_size size limit ≡ ok tt → size ≤ limit
unfolding validate_file_size
validate_file_size_ok size limit fine = ground arith

validate_file_size_err :
    (size limit : ℕ) (e : Error) → validate_file_size size limit ≡ err e → limit < size
unfolding validate_file_size
validate_file_size_err size limit e bad = ground arith

-- `sent` reads off a world the request streams that were given to the RPC. A server that answers
-- with success has polled its stream to the end.
pub record Ledger {W : Type 0} (client : RociaDbClient W) (new_request_id : Action W String)
    (upload : List UploadRequest → Action W (Bool × Result Status (Unit {0}))) : Type 0 where
  pub sent : W → List (List UploadRequest)
  pub upload_sent : (rs : List UploadRequest) (w : W) → sent (upload rs w).1 ≡ sent w ++ rs ∷ []
  pub id_sent : (w : W) → sent (new_request_id w).1 ≡ sent w
  pub before_sent : (w : W) → sent (refresh_token_before_stream client w) ≡ sent w
  pub replay_sent : (e : Error) (w : W) → sent (refresh_for_replay client e w).1 ≡ sent w
  pub success_polled :
      (rs : List UploadRequest) (w : W) → (upload rs w).0.1 ≡ ok tt → (upload rs w).0.0 ≡ true

-- What the first message of an upload of pieces must say.
abbrev pub stream_metadata : Target → FileStreamUploadOptions → String → UploadMetadata
stream_metadata target options request_id = record {
  tenant_id = target.tenant_id;
  bucket = target.bucket;
  file_id = target.file_id;
  content_type = options.content_type;
  checksum = options.checksum;
  request_id = request_id;
}

given_or_computed :
    (digest : List ℕ → List ℕ) (checksum : Option (List ℕ)) (bytes : List ℕ)
    → unwrap_or checksum (digest bytes) ≡ resolve_checksum digest checksum bytes
given_or_computed digest none bytes = refl
given_or_computed digest (some checksum) bytes = refl

-- What the first message of an upload from memory must say.
abbrev pub memory_metadata : Target → FileUploadOptions → List ℕ → String → UploadMetadata
memory_metadata target options checksum request_id = record {
  tenant_id = target.tenant_id;
  bucket = target.bucket;
  file_id = target.file_id;
  content_type = options.content_type;
  checksum = checksum;
  request_id = request_id;
}

module _ {W : Type 0} (client : RociaDbClient W) (c : ℕ) (new_request_id : Action W String)
    (upload : List UploadRequest → Action W (Bool × Result Status (Unit {0}))) (target : Target)
    (ledger : Ledger client new_request_id upload) where
  raw_sent :
      (rs : List UploadRequest) (w : W)
      → ledger.sent (upload_raw client c new_request_id upload target rs w).1
        ≡ ledger.sent w ++ rs ∷ []
  raw_sent rs w =
      ledger.upload_sent rs (refresh_token_before_stream client w) ∙ rw (ledger.before_sent w) refl

  chosen_id_sent :
      (o : Option String) (w : W)
      → ledger.sent (unwrap_or_else o new_request_id w).1 ≡ ledger.sent w
  chosen_id_sent (some id) w = refl
  chosen_id_sent none w = ledger.id_sent w

  chunked_answer_ok :
      (slot : Option Error) (ended : Bool) (answer : Result Status (Unit {0}))
      → (answer ≡ ok tt → ended ≡ true)
      → chunked_answer client c new_request_id upload target slot (ended, answer) ≡ ok tt
      → slot ≡ none
  chunked_answer_ok none ended answer polled good = refl
  chunked_answer_ok (some e) true answer polled good = cc
  chunked_answer_ok (some e) false (ok u) polled good = absurd (ground (arith, polled refl))
  chunked_answer_ok (some e) false (err s) polled good = cc

  -- An upload from a stream of pieces that succeeds has sent exactly the messages that
  -- `chunk_upload_requests` makes of its bytes, once, under the target, the content type and the
  -- checksum that it was given and the request id that was given or drawn; the source yielded exactly the declared number of
  -- bytes, and they are within the client's limit. The chunk size must be positive; a server that answers
  -- with success must have read its stream to the end, and refreshing the token sends nothing.
  pub upload_file_chunked_ok :
      (chunks : List Item) (options : FileStreamUploadOptions) (w w' : W)
      → 0 < c
      → upload_file_chunked client c new_request_id upload target chunks options w
        ≡ some (ok tt, w')
      → (length (received chunks) ≡ options.size_bytes)
        × (options.size_bytes ≤ client.max_file_bytes)
        × (ledger.sent w'
            ≡ ledger.sent w
              ++ chunk_upload_requests c (received chunks) (
                  stream_metadata target options
                    (unwrap_or_else options.request_id new_request_id w).0)
                ∷ [])
  unfolding upload_file_chunked
  upload_file_chunked_ok chunks options w w' positive good =
      elim (Result-cases (validate_file_size options.size_bytes client.max_file_bytes)) [
        | inr (x, big) ↦
            let run : upload_file_chunked client c new_request_id upload target chunks options w
                ≡ some (err x, w) =
              rw (big, upload_file_chunked) refl in
            let clash : some (ok tt, w') ≡ some (err x, w) = sym good ∙ run in cc clash
        | inl (u, fits) ↦
            let (request_id, w1) = unwrap_or_else options.request_id new_request_id w in
            let m : UploadMetadata = record {
              tenant_id = target.tenant_id;
              bucket = target.bucket;
              file_id = target.file_id;
              content_type = options.content_type;
              checksum = options.checksum;
              request_id = request_id;
            } in
            let (requests, returns) =
              rechunk_upload_requests-verdict c options.size_bytes m chunks positive in
            let slot : Option Error = verdict options.size_bytes 0 chunks in
            let w2 : W = refresh_token_before_stream client w1 in
            let run : upload_file_chunked client c new_request_id upload target chunks options w
                ≡ some (
                  chunked_answer client c new_request_id upload target slot (upload requests w2).0,
                  (upload requests w2).1,
                ) =
              rw (fits, upload_file_chunked) (rw returns refl) in
            let both : some (ok tt, w')
                ≡ some (
                  chunked_answer client c new_request_id upload target slot (upload requests w2).0,
                  (upload requests w2).1,
                ) =
              sym good ∙ run in
            let answered : chunked_answer client c new_request_id upload target slot
                  (upload requests w2).0
                ≡ ok tt =
              cc both in
            let there : w' ≡ (upload requests w2).1 = cc both in
            let clean : slot ≡ none =
              chunked_answer_ok slot (upload requests w2).0.0 (upload requests w2).0.1
                (ledger.success_polled requests w2) answered in
            let (whole, exact) =
              rechunk-after_good_verdict c options.size_bytes m chunks positive clean in
            let same : some (requests, slot)
                ≡ some (chunk_upload_requests c (received chunks) m, none) =
              sym returns ∙ whole in
            let messages : requests ≡ chunk_upload_requests c (received chunks) m = cc same in
            (
              exact,
              validate_file_size_ok options.size_bytes client.max_file_bytes fits,
              ap ledger.sent there
                  ∙ raw_sent requests w1
                  ∙ rw (chosen_id_sent options.request_id w, messages) refl,
            )
      ]

  -- What the two attempts of an upload may send.
  upload_with_replay_sent :
      (rs : List UploadRequest) (w : W)
      → let (answer, w') = upload_with_replay client c new_request_id upload target rs w in
        (ledger.sent w' ≡ ledger.sent w ++ rs ∷ [])
        ⊎ (ledger.sent w' ≡ ledger.sent w ++ rs ∷ rs ∷ [])
  unfolding upload_with_replay
  upload_with_replay_sent rs w =
      let (answer, w1) = upload_raw client c new_request_id upload target rs w in
      let first : ledger.sent w1 ≡ ledger.sent w ++ rs ∷ [] = raw_sent rs w in
      elim (Result-cases answer.1) [
        | inl (u, good) ↦ inl (rw (good, upload_with_replay) first)
        | inr (status, bad) ↦
            let error : Error = status_error upload_operation status in
            let kept : ledger.sent (refresh_for_replay client error w1).1
                ≡ ledger.sent w ++ rs ∷ [] =
              ledger.replay_sent error w1 ∙ first in
            elim (Bool-cases (refresh_for_replay client error w1).0) [
              | inr once ↦ inl (rw (bad, upload_with_replay) (rw once kept))
              | inl twice ↦ inr (
                  rw (bad, upload_with_replay)
                    (rw twice (
                      raw_sent rs (refresh_for_replay client error w1).1
                      ∙ rw kept (append_assoc (ledger.sent w) (rs ∷ []) (rs ∷ [])))))
            ]
      ]

  -- An upload from memory of a file over the client's limit sends nothing. Any other sends the messages that
  -- `chunk_upload_requests` makes of its bytes once, or twice with the same messages, under the target
  -- and the content type that it was given, the checksum that was given or computed, and the request
  -- id that was given or drawn. Refreshing the token sends nothing.
  pub upload_file_sent :
      (digest : List ℕ → List ℕ) (bytes : List ℕ) (options : FileUploadOptions) (w : W)
      → let (answer, w') =
          upload_file client c new_request_id upload target digest bytes options w in
        ((client.max_file_bytes < length bytes) × (w' ≡ w) × (e : Error) × (answer ≡ err e))
        ⊎ ((length bytes ≤ client.max_file_bytes)
            × let rs = chunk_upload_requests c bytes (
                memory_metadata target options
                  (unwrap_or options.checksum (digest bytes))
                  (unwrap_or_else options.request_id new_request_id w).0) in
              (ledger.sent w' ≡ ledger.sent w ++ rs ∷ [])
              ⊎ (ledger.sent w' ≡ ledger.sent w ++ rs ∷ rs ∷ []))
  unfolding upload_file
  upload_file_sent digest bytes options w =
      let (request_id, w1) = unwrap_or_else options.request_id new_request_id w in
      let m : UploadMetadata = record {
        tenant_id = target.tenant_id;
        bucket = target.bucket;
        file_id = target.file_id;
        content_type = options.content_type;
        checksum = resolve_checksum digest options.checksum bytes;
        request_id = request_id;
      } in
      let rs : List UploadRequest = chunk_upload_requests c bytes m in
      let before : ledger.sent w1 ≡ ledger.sent w = chosen_id_sent options.request_id w in
      elim (Result-cases (validate_file_size (length bytes) client.max_file_bytes)) [
        | inr (x, big) ↦ inl (
          validate_file_size_err (length bytes) client.max_file_bytes x big,
          rw (big, upload_file) refl,
          x,
          rw (big, upload_file) refl,
        )
        | inl (u, fits) ↦ inr (
          validate_file_size_ok (length bytes) client.max_file_bytes fits,
          rw (given_or_computed digest options.checksum bytes, fits, upload_file)
              (elim (upload_with_replay_sent rs w1) [
                | inl once ↦ inl (once ∙ rw before refl)
                | inr twice ↦ inr (twice ∙ rw before refl)
              ]),
        )
      ]
