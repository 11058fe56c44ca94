-- ===== src/File/Rechunk.antt =====
-- `RechunkState` and `rechunk_upload_requests` of `src/file.rs`: the state machine that cuts a
-- stream of pieces of any size into upload messages, under `upload_file_chunked`.
--
-- The source stream is the list of the items that it will yield; its end is the list's end. The
-- shared `error_slot` is a field of the state, which the caller reads when the stream has ended.
-- `turn` is one pass of the `loop` in the closure of `stream::unfold`, and `drive` polls the
-- stream until it ends. `none` is the fuel running out.
pub mod Spec
pub mod Progress
pub mod Drain
pub mod Ingest
pub mod Turns
pub mod Ending
pub mod Totality
mod Tests
use rociadb_core_sdk_rust.Prelude.{
  ℕ, zero, suc, ◌+◌, ◌-◌, ◌*◌, min, Bool, true, false, not, ◌&&◌, ◌||◌, Option, none, some, List,
  [], ◌∷◌, ◌++◌, ltb, leb, ◌==◌, if◌then◌else◌, length, take, drop, is_empty, Result, ok, err,
}
use rociadb_core_sdk_rust.Error.{
  Error, Source, io, validation, more_than_declared, fewer_than_declared,
}
use rociadb_core_sdk_rust.File.Upload.{UploadRequest, UploadMetadata, next_request}

-- An item of the caller's stream: `std::io::Result<Bytes>`.
abbrev pub Item : Type 0
Item = Result Source (List ℕ)

pub record RechunkState : Type 0 where
  pub source : List Item
  pub buffer : List ℕ
  pub pending : List ℕ
  pub pending_offset : ℕ
  pub size_bytes : ℕ
  pub total_written : ℕ
  pub wrote_any : Bool
  pub source_exhausted : Bool
  pub metadata : Option UploadMetadata
  pub error_slot : Option Error

abbrev pub record_error : Error → RechunkState → RechunkState
record_error e s = record s { error_slot = some e }

abbrev pub unsent_len : RechunkState → ℕ
unsent_len s = length s.buffer + (length s.pending - s.pending_offset)

abbrev pub record_size_error_more : RechunkState → RechunkState
record_size_error_more s = record_error (validation (more_than_declared s.size_bytes)) s

abbrev pub record_size_error_fewer : RechunkState → RechunkState
record_size_error_fewer s =
    record_error (validation (fewer_than_declared s.total_written s.size_bytes)) s

abbrev pub record_io_error : Source → RechunkState → RechunkState
record_io_error e s = record_error (io "the upload chunk stream" e) s

abbrev pub has_pending : RechunkState → Bool
has_pending s = ltb s.pending_offset (length s.pending)

-- What one pass of the loop does: go round again, yield a message, or end the stream.
pub data Turn : Type 0 where
  again : RechunkState → Turn
  emit : UploadRequest → RechunkState → Turn
  finish : RechunkState → Turn

module _ (chunk_size : ℕ) where
  unfoldable pub ingest : List ℕ → RechunkState → RechunkState
  ingest piece s =
      let space_left = chunk_size - length s.buffer in
      if leb (length piece) space_left then record s { buffer = s.buffer ++ piece } else record s {
        buffer = s.buffer ++ take space_left piece;
        pending = piece;
        pending_offset = space_left;
      }

  -- `pending` is emptied once all of it has been copied.
  unfoldable pub drain_pending : RechunkState → RechunkState
  drain_pending s =
      let space_left = chunk_size - length s.buffer in
      let available = length s.pending - s.pending_offset in
      let count = min space_left available in
      let end = s.pending_offset + count in
      let s' = record s {
        buffer = s.buffer ++ take count (drop s.pending_offset s.pending);
        pending_offset = end;
      } in
      if not (has_pending s)
      then s
      else if not (has_pending s')
      then record s' { pending = []; pending_offset = 0 }
      else s'

  -- The next item of the source.
  unfoldable pub pull : List Item → RechunkState → Turn
  unfolding ingest
  pull [] s = again (record s { source_exhausted = true })
  pull (ok piece ∷ rest) s = again (ingest piece (record s { source = rest }))
  pull (err e ∷ rest) s =
      if ltb 0 s.size_bytes && (s.total_written + unsent_len s == s.size_bytes)
      then again (record s { source = rest; source_exhausted = true })
      else finish (record_io_error e (record s { source = rest }))

  unfoldable pub turn : RechunkState → Turn
  turn s =
      let completes_the_file = s.total_written + chunk_size == s.size_bytes in
      if ltb s.size_bytes (s.total_written + unsent_len s)
      then finish (record_size_error_more s)
      else if leb chunk_size (length s.buffer) && (not completes_the_file || s.source_exhausted)
      then emit (next_request s.metadata s.size_bytes (take chunk_size s.buffer)) (record s {
        buffer = drop chunk_size s.buffer;
        total_written = s.total_written + chunk_size;
        wrote_any = true;
        metadata = none;
      })
      else if has_pending s
      then again (drain_pending s)
      else if not s.source_exhausted
      then pull s.source s
      else if not (is_empty s.buffer) || not s.wrote_any
      then emit (next_request s.metadata s.size_bytes s.buffer) (record s {
        buffer = [];
        total_written = s.total_written + length s.buffer;
        wrote_any = true;
        metadata = none;
      })
      else if s.total_written == s.size_bytes
      then finish s
      else finish (record_size_error_fewer s)

  -- Go on after a pass: round again, deliver the message and poll for the next, or end.
  abbrev pub resume :
      (RechunkState → Option (List UploadRequest × Option Error))
      → Turn
      → Option (List UploadRequest × Option Error)
  resume rest (again s) = rest s
  resume rest (emit request s) = elim (rest s) [
    | none ↦ none
    | some (requests, slot) ↦ some (request ∷ requests, slot)
  ]
  resume rest (finish s) = some ([], s.error_slot)

  -- Every message of the stream, and the error slot when it has ended.
  unfoldable pub drive : ℕ → RechunkState → Option (List UploadRequest × Option Error)
  drive zero s = none
  drive (suc fuel) s = resume (drive fuel) (turn s)

-- The state that `rechunk_upload_requests` starts from.
abbrev pub initial : ℕ → UploadMetadata → List Item → RechunkState
initial size metadata chunks = record {
  source = chunks;
  buffer = [];
  pending = [];
  pending_offset = 0;
  size_bytes = size;
  total_written = 0;
  wrote_any = false;
  source_exhausted = false;
  metadata = some metadata;
  error_slot = none;
}

-- How many passes of the loop the items can take.
abbrev pub weight : List Item → ℕ
weight [] = 0
weight (ok piece ∷ rest) = 2 * length piece + 1 + weight rest
weight (err e ∷ rest) = 1 + weight rest

unfoldable pub rechunk_upload_requests :
    ℕ → ℕ → UploadMetadata → List Item → Option (List UploadRequest × Option Error)
rechunk_upload_requests chunk_size size metadata chunks =
    drive chunk_size (weight chunks + 3) (initial size metadata chunks)
