-- ===== src/File/Download.antt =====
-- `VerifiedDownload` and `download_verified_into` of `src/file.rs`: a download that is checked
-- against the file's metadata while it goes to the caller's writer.
--
-- The hasher is the bytes that it has been fed, and SHA-256 is the argument `digest`. The writer is
-- an argument: its `write_all` and `flush` are actions on its own state. The response stream is the
-- list of the messages that it will yield.
pub mod Verified
pub mod Completion
mod Tests
use Prim.Native.String.{String}
use rociadb_core_sdk_rust.Prelude.{
  ℕ, ◌+◌, ◌*◌, min, Bool, true, false, not, ◌&&◌, List, [], ◌∷◌, ◌++◌, ltb, ◌==◌, if◌then◌else◌,
  max_u64, length, Result, map_err, ◌>>=◌, Action, ok, err,
}
use rociadb_core_sdk_rust.File.Timestamp.Instants.{FileTimestamp}
use rociadb_core_sdk_rust.Error.{
  Error, Source, Status, status_context, io, size_mismatch, checksum_mismatch,
}

abbrev pub max_preallocated_download_bytes : ℕ
max_preallocated_download_bytes = 64 * 1024 * 1024

-- `usize` is 64 bits wide here, so the conversion never fails.
abbrev pub preallocated_download_capacity : ℕ → ℕ
preallocated_download_capacity size = min size max_preallocated_download_bytes

pub record FileMetadata : Type 0 where
  pub size_bytes : ℕ
  pub content_type : String
  pub checksum : List ℕ
  pub created_at : FileTimestamp
  pub updated_at : FileTimestamp

pub record VerifiedDownload : Type 0 where
  pub expected_size : ℕ
  pub hasher : List ℕ
  pub written : ℕ

abbrev pub new_download : ℕ → VerifiedDownload
new_download expected = record { expected_size = expected; hasher = []; written = 0 }

abbrev pub saturating_add_u64 : ℕ → ℕ → ℕ
saturating_add_u64 a b = min (a + b) max_u64

-- `VerifiedDownload::record`: the state is updated before the check.
unfoldable pub record_chunk : List ℕ → Action VerifiedDownload (Result Error (Unit {0}))
record_chunk chunk v =
    let v' = record v {
      hasher = v.hasher ++ chunk;
      written = saturating_add_u64 v.written (length chunk);
    } in
    (
      if ltb v'.expected_size v'.written
          then err (size_mismatch v'.expected_size v'.written)
          else ok tt,
      v',
    )

abbrev pub download_write_context : String
download_write_context = "writing the downloaded file"

abbrev pub download_write_error : Source → Error
download_write_error e = io download_write_context e

pub record Writer (W : Type 0) : Type 0 where
  pub write_all : List ℕ → Action W (Result Source (Unit {0}))
  pub flush : Action W (Result Source (Unit {0}))

abbrev pub same_bytes : List ℕ → List ℕ → Bool
same_bytes [] [] = true
same_bytes (a ∷ xs) (b ∷ ys) = a == b && same_bytes xs ys
same_bytes _ _ = false

module _ (digest : List ℕ → List ℕ) where
  -- `VerifiedDownload::finish`.
  unfoldable pub finish : List ℕ → VerifiedDownload → Result Error ℕ
  finish expected_checksum v =
      if not (v.written == v.expected_size)
      then err (size_mismatch v.expected_size v.written)
      else if not (same_bytes (digest v.hasher) expected_checksum)
      then err (checksum_mismatch expected_checksum (digest v.hasher))
      else ok v.written

  module _ {W : Type 0} (writer : Writer W) where
    -- `VerifiedDownload::absorb`: a chunk that overshoots is not written.
    unfoldable pub absorb : List ℕ → VerifiedDownload → W → Result Error VerifiedDownload × W
    unfolding record_chunk
    absorb chunk v w =
        let (checked, v') = record_chunk chunk v in
        elim checked [
          | err e ↦ (err e, w)
          | ok _ ↦
              let (outcome, w') = writer.write_all chunk w in
              (map_err download_write_error outcome >>= λ _. ok v', w')
        ]

    -- The loop over `stream.message()`, then `finish` and the flush.
    unfoldable pub receive :
        List ℕ → List (Result Status (List ℕ)) → VerifiedDownload → W → Result Error ℕ × W
    receive checksum [] v w = elim (finish checksum v) [
      | err e ↦ (err e, w)
      | ok written ↦
          let (outcome, w') = writer.flush w in
          (map_err download_write_error outcome >>= λ _. ok written, w')
    ]
    receive checksum (err s ∷ rest) v w = (status_context "file download stream failed" (err s), w)
    receive checksum (ok chunk ∷ rest) v w =
        let (outcome, w') = absorb chunk v w in
        elim outcome [ err e ↦ (err e, w') | ok v' ↦ receive checksum rest v' w' ]

    -- `opened` is what `download_file_stream` returned.
    unfoldable pub download_verified_into :
        FileMetadata → Result Error (List (Result Status (List ℕ))) → W → Result Error ℕ × W
    download_verified_into metadata opened w = elim opened [
      | err e ↦ (err e, w)
      | ok stream ↦ receive metadata.checksum stream (new_download metadata.size_bytes) w
    ]
