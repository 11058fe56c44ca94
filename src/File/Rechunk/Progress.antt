-- ===== src/File/Rechunk/Progress.antt =====
-- What is left to do in a state of the machine of `rechunk_upload_requests` (`src/file.rs`): the
-- bytes still to be sent, the verdict on them, and a measure of the work.
use rociadb_core_sdk_rust.Prelude.{
  ℕ, ◌+◌, ◌-◌, ◌*◌, ◌≤◌, ◌<◌, ◌≡◌, Option, none, List, [], ◌++◌, if◌then◌else◌, length, drop,
}
use rociadb_core_sdk_rust.Error.{Error}
use rociadb_core_sdk_rust.File.Rechunk.{Item, RechunkState, unsent_len, weight}
use rociadb_core_sdk_rust.File.Rechunk.Spec.{received, verdict}

-- The items that may still be read.
abbrev pub todo : RechunkState → List Item
todo s = if s.source_exhausted then [] else s.source

-- The bytes that are in hand and not sent.
abbrev pub held : RechunkState → List ℕ
held s = s.buffer ++ drop s.pending_offset s.pending

abbrev pub remaining : RechunkState → List ℕ
remaining s = held s ++ received (todo s)

abbrev pub seen : RechunkState → ℕ
seen s = s.total_written + unsent_len s

abbrev pub judged : RechunkState → Option Error
judged s = verdict s.size_bytes (seen s) (todo s)

abbrev pub measure : RechunkState → ℕ
measure s =
    length s.buffer
    + 2 * (length s.pending - s.pending_offset)
    + weight (todo s)
    + (if s.source_exhausted then 0 else 1)
    + (if s.wrote_any then 0 else 1)

-- The buffer never passes one chunk, and the offset stays within the pending piece.
pub record IsValid (c : ℕ) (s : RechunkState) : Type 0 where
  pub buffered : length s.buffer ≤ c
  pub within : s.pending_offset ≤ length s.pending
  pub no_error : s.error_slot ≡ none

-- A pass that yields nothing: it moves bytes, and loses and adds none.
pub record Continues (c : ℕ) (s s' : RechunkState) : Type 0 where
  pub valid : IsValid c s'
  pub smaller : measure s' < measure s
  pub same_remaining : remaining s' ≡ remaining s
  pub same_judged : judged s' ≡ judged s
  pub same_size : s'.size_bytes ≡ s.size_bytes
  pub same_total : s'.total_written ≡ s.total_written
  pub same_wrote : s'.wrote_any ≡ s.wrote_any
  pub same_metadata : s'.metadata ≡ s.metadata
