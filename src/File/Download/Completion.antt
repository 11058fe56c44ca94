-- ===== src/File/Download/Completion.antt =====
-- What a download writes when it fails, and when it succeeds (`download_verified_into` of
-- `src/file.rs`).
use mathlib.Core.List.{append_assoc, append-nil}
use rociadb_core_sdk_rust.Prelude.{
  ℕ, ◌+◌, ◌-◌, ◌≤◌, ◌<◌, ◌≡◌, refl, sym, ap, ◌∙◌, inl, inr, true, false, List, [], ◌∷◌, ◌++◌, arith,
  ltb, Bool-cases, max_u64, length, length-append, Result, Result-cases, ok, err,
}
use rociadb_core_sdk_rust.Error.{Error, Status}
use rociadb_core_sdk_rust.File.Download.{
  FileMetadata, VerifiedDownload, new_download, record_chunk, saturating_add_u64, Writer, finish,
  absorb, receive, download_verified_into,
}
use rociadb_core_sdk_rust.File.Download.Verified.{same_bytes_refl, Faithful, bytes_of, is_clean}

module _ (digest : List ℕ → List ℕ) {W : Type 0} (writer : Writer W) (f : Faithful writer) where
  -- A chunk is written only if it fits, so the room that is left covers what the writer takes.
  absorb_bounded :
      (chunk : List ℕ) (v : VerifiedDownload) (w : W)
      → v.expected_size < max_u64
      → v.written ≤ v.expected_size
      → length (f.content (absorb digest writer chunk v w).1)
        ≤ length (f.content w) + (v.expected_size - v.written)
  unfolding absorb record_chunk
  absorb_bounded chunk v w fits room =
      elim (Bool-cases (ltb v.expected_size (saturating_add_u64 v.written (length chunk)))) [
        | inl big ↦ rw (big, absorb) (omega arith)
        | inr small ↦ rw (small, absorb) (ground (arith, f.write_bounded chunk w))
      ]

  absorb_room :
      (chunk : List ℕ) (v v' : VerifiedDownload) (w : W)
      → v.expected_size < max_u64
      → v.written ≤ v.expected_size
      → (absorb digest writer chunk v w).0 ≡ ok v'
      → (v'.expected_size ≡ v.expected_size)
        × (v'.written ≤ v.expected_size)
        × (length (f.content (absorb digest writer chunk v w).1) + v.written
            ≤ length (f.content w) + v'.written)
  unfolding absorb record_chunk
  absorb_room chunk v v' w fits room good =
      elim (Bool-cases (ltb v.expected_size (saturating_add_u64 v.written (length chunk)))) [
        | inl big ↦ absurd (ground arith)
        | inr small ↦ elim (Result-cases (writer.write_all chunk w).0) [
          | inr (x, e) ↦ absurd (ground arith)
          | inl (u, e) ↦ rw (small, absorb) (ground (arith, f.write_bounded chunk w))
        ]
      ]

  receive_bounded :
      (checksum : List ℕ) (stream : List (Result Status (List ℕ))) (v : VerifiedDownload) (w : W)
      → v.expected_size < max_u64
      → v.written ≤ v.expected_size
      → length (f.content (receive digest writer checksum stream v w).1)
        ≤ length (f.content w) + (v.expected_size - v.written)
  unfolding receive
  receive_bounded checksum [] v w fits room = elim (Result-cases (finish digest checksum v)) [
    | inr (x, e) ↦ rw (e, receive) (omega arith)
    | inl (m, e) ↦ rw (e, receive) (omega (arith, ap length (f.flush_keeps w)))
  ]
  receive_bounded checksum (err s ∷ rest) v w fits room = omega arith
  receive_bounded checksum (ok chunk ∷ rest) v w fits room =
      elim (Result-cases (absorb digest writer chunk v w).0) [
        | inr (x, e) ↦ rw (e, receive) (absorb_bounded chunk v w fits room)
        | inl (v', e) ↦
            let w' : W = (absorb digest writer chunk v w).1 in
            let a : (v'.expected_size ≡ v.expected_size)
                × (v'.written ≤ v.expected_size)
                × (length (f.content w') + v.written ≤ length (f.content w) + v'.written) =
              absorb_room chunk v v' w fits room e in
            rw (e, receive)
              (omega (
                arith,
                a,
                receive_bounded checksum rest v' w' (omega (arith, a, fits)) (omega (arith, a)),
              ))
      ]

  -- Whatever the stream yields and however the download ends, the writer has taken no more than
  -- the metadata's size. The writer must be faithful, and the size less than the largest `u64`.
  pub download_verified_bounded :
      (metadata : FileMetadata) (opened : Result Error (List (Result Status (List ℕ)))) (w : W)
      → metadata.size_bytes < max_u64
      → length (f.content (download_verified_into digest writer metadata opened w).1)
        ≤ length (f.content w) + metadata.size_bytes
  unfolding download_verified_into
  download_verified_bounded metadata (err e) w fits = omega arith
  download_verified_bounded metadata (ok stream) w fits = omega (
    arith,
    receive_bounded metadata.checksum stream (new_download metadata.size_bytes) w fits
        (omega arith),
  )

module _ (digest : List ℕ → List ℕ) {W : Type 0} (writer : Writer W)
    (writes : (b : List ℕ) (w : W) → (writer.write_all b w).0 ≡ ok tt)
    (flushes : (w : W) → (writer.flush w).0 ≡ ok tt) where
  finish_completes :
      (checksum : List ℕ) (v : VerifiedDownload)
      → v.written ≡ v.expected_size
      → digest v.hasher ≡ checksum
      → finish digest checksum v ≡ ok v.expected_size
  unfolding finish
  finish_completes checksum v size same = rw same (ground (arith, same_bytes_refl checksum))

  absorb_completes :
      (chunk : List ℕ) (v : VerifiedDownload) (w : W)
      → v.expected_size < max_u64
      → v.written + length chunk ≤ v.expected_size
      → (absorb digest writer chunk v w).0 ≡ ok (record_chunk chunk v).1
  unfolding absorb record_chunk
  absorb_completes chunk v w fits room =
      let small : ltb v.expected_size (saturating_add_u64 v.written (length chunk)) ≡ false =
        ground arith in
      rw (small, absorb) (rw (writes chunk w) refl)

  receive_completes :
      (checksum : List ℕ) (stream : List (Result Status (List ℕ))) (v : VerifiedDownload) (w : W)
      → v.expected_size < max_u64
      → is_clean stream ≡ true
      → v.written + length (bytes_of stream) ≡ v.expected_size
      → digest (v.hasher ++ bytes_of stream) ≡ checksum
      → (receive digest writer checksum stream v w).0 ≡ ok v.expected_size
  unfolding receive record_chunk
  receive_completes checksum [] v w fits clean size same =
      rw
        (
          finish_completes checksum v (omega (arith, size))
              (ap digest (sym (append-nil v.hasher)) ∙ same),
          receive,
        )
        (rw (flushes w) refl)
  receive_completes checksum (err s ∷ rest) v w fits clean size same = cc
  receive_completes checksum (ok chunk ∷ rest) v w fits clean size same =
      let fed : VerifiedDownload = (record_chunk chunk v).1 in
      let total : length (chunk ++ bytes_of rest) ≡ length chunk + length (bytes_of rest) =
        length-append chunk (bytes_of rest) in
      let written : v.written + length chunk ≤ v.expected_size = omega (arith, total, size) in
      let counted : fed.written ≡ v.written + length chunk = ground arith in
      rw (absorb_completes chunk v w fits written, receive)
        (receive_completes checksum rest fed (absorb digest writer chunk v w).1 fits clean
          (omega (arith, total, size, counted))
          (ap digest (append_assoc v.hasher chunk (bytes_of rest)) ∙ same))

  -- A stream that comes to its end with as many bytes as the metadata says and with its checksum
  -- is accepted, if the writer refuses no write and no flush and the size is less than the largest `u64`.
  pub download_verified_completes :
      (m : FileMetadata) (size : ℕ) (checksum : List ℕ) (stream : List (Result Status (List ℕ)))
      (w : W)
      → size < max_u64
      → is_clean stream ≡ true
      → length (bytes_of stream) ≡ size
      → digest (bytes_of stream) ≡ checksum
      → (download_verified_into digest writer
          (record m { size_bytes = size; checksum = checksum })
          (ok stream)
          w).0
        ≡ ok size
  unfolding download_verified_into
  download_verified_completes m size checksum stream w fits clean counted same =
      receive_completes checksum stream (new_download size) w fits clean (omega (arith, counted))
        same
