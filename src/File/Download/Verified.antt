-- ===== src/File/Download/Verified.antt =====
-- What a verified download (`download_verified_into` of `src/file.rs`) promises about the bytes that
-- reached the caller's writer.
use mathlib.Core.List.{append_assoc, append-nil}
use rociadb_core_sdk_rust.Prelude.{
  ℕ, ◌+◌, ◌≤◌, ◌<◌, ◌≡◌, refl, sym, ap, ◌∙◌, inl, inr, Bool, true, false, List, [], ◌∷◌, ◌++◌,
  arith, ltb, Bool-cases, max_u64, length, length-append, Result, Result-cases, ok, err,
}
use rociadb_core_sdk_rust.Error.{Status}
use rociadb_core_sdk_rust.File.Download.{
  FileMetadata, new_download, download_verified_into, VerifiedDownload, saturating_add_u64,
  record_chunk, Writer, same_bytes, finish, absorb, receive,
}

pub same_bytes-eq : (xs ys : List ℕ) → same_bytes xs ys ≡ true → xs ≡ ys
same_bytes-eq [] [] h = refl
same_bytes-eq (a ∷ xs) (b ∷ ys) h = ground (arith, same_bytes-eq xs ys)
same_bytes-eq [] (b ∷ ys) h = cc
same_bytes-eq (a ∷ xs) [] h = cc

pub same_bytes_refl : (xs : List ℕ) → same_bytes xs xs ≡ true
same_bytes_refl [] = refl
same_bytes_refl (a ∷ xs) = ground (arith, same_bytes_refl xs)

-- The bytes of a stream up to its end or its first failure.
abbrev pub bytes_of : List (Result Status (List ℕ)) → List ℕ
bytes_of [] = []
bytes_of (ok chunk ∷ rest) = chunk ++ bytes_of rest
bytes_of (err s ∷ rest) = []

abbrev pub is_clean : List (Result Status (List ℕ)) → Bool
is_clean [] = true
is_clean (ok chunk ∷ rest) = is_clean rest
is_clean (err s ∷ rest) = false

-- What a writer is relied on for: a write that succeeds has taken exactly its bytes, one that fails
-- has taken some front part of them, and a flush takes none.
pub record Faithful {W : Type 0} (writer : Writer W) : Type 0 where
  pub content : W → List ℕ
  pub write_ok :
      (b : List ℕ) (w : W)
      → (writer.write_all b w).0 ≡ ok tt
      → content (writer.write_all b w).1 ≡ content w ++ b
  pub write_bounded :
      (b : List ℕ) (w : W)
      → length (content (writer.write_all b w).1) ≤ length (content w) + length b
  pub flush_keeps : (w : W) → content (writer.flush w).1 ≡ content w

module _ (digest : List ℕ → List ℕ) (checksum : List ℕ) where
  finish_ok :
      (v : VerifiedDownload) (n : ℕ)
      → finish digest checksum v ≡ ok n
      → (n ≡ v.written) × (v.written ≡ v.expected_size) × (digest v.hasher ≡ checksum)
  unfolding finish
  finish_ok v n good = ground (arith, same_bytes-eq (digest v.hasher) checksum)

module _ (digest : List ℕ → List ℕ) {W : Type 0} (writer : Writer W) (f : Faithful writer)
    (chunk : List ℕ) (v : VerifiedDownload) (w : W) where
  record Absorbed (v' : VerifiedDownload) (w' : W) : Type 0 where
    size_same : v'.expected_size ≡ v.expected_size
    hasher_is : v'.hasher ≡ v.hasher ++ chunk
    written_is : v'.written ≡ v.written + length chunk
    content_is : f.content w' ≡ f.content w ++ chunk

  absorb-Absorbed :
      (v' : VerifiedDownload)
      → v.expected_size < max_u64
      → (absorb digest writer chunk v w).0 ≡ ok v'
      → Absorbed v' (absorb digest writer chunk v w).1
  unfolding absorb record_chunk
  absorb-Absorbed v' fits good =
      elim (Bool-cases (ltb v.expected_size (saturating_add_u64 v.written (length chunk)))) [
        | inl big ↦ absurd (ground arith)
        | inr small ↦ elim (Result-cases (writer.write_all chunk w).0) [
          | inr (x, e) ↦ absurd (ground arith)
          | inl (u, e) ↦
              rw (small, absorb)
                (record {
                  size_same = ground arith;
                  hasher_is = ground arith;
                  written_is = ground arith;
                  content_is = f.write_ok chunk w (ground arith);
                })
        ]
      ]

module _ (digest : List ℕ → List ℕ) {W : Type 0} (writer : Writer W) (f : Faithful writer)
    (checksum : List ℕ) where
  -- What a successful run of the loop has done from a state of the download.
  record Received (stream : List (Result Status (List ℕ))) (v : VerifiedDownload) (w : W) (n : ℕ)
      (w' : W) : Type 0 where
    size_is : n ≡ v.expected_size
    clean : is_clean stream ≡ true
    content_is : f.content w' ≡ f.content w ++ bytes_of stream
    counted : v.written + length (bytes_of stream) ≡ v.expected_size
    digest_is : digest (v.hasher ++ bytes_of stream) ≡ checksum

  receive-Received :
      (stream : List (Result Status (List ℕ))) (v : VerifiedDownload) (w : W) (n : ℕ)
      → v.expected_size < max_u64
      → (receive digest writer checksum stream v w).0 ≡ ok n
      → Received stream v w n (receive digest writer checksum stream v w).1
  unfolding receive
  receive-Received [] v w n fits good = elim (Result-cases (finish digest checksum v)) [
    | inr (x, e) ↦ absurd (ground arith)
    | inl (m, e) ↦
        let done : (m ≡ v.written) × (v.written ≡ v.expected_size) × (digest v.hasher ≡ checksum) =
          finish_ok digest checksum v m e in
        rw (e, receive)
          (record {
            size_is = ground arith;
            clean = refl;
            content_is = f.flush_keeps w ∙ sym (append-nil (f.content w));
            counted = omega (arith, done);
            digest_is = rw append-nil done.2;
          })
  ]
  receive-Received (err s ∷ rest) v w n fits good = cc
  receive-Received (ok chunk ∷ rest) v w n fits good =
      elim (Result-cases (absorb digest writer chunk v w).0) [
        | inr (x, e) ↦ absurd (ground arith)
        | inl (v', e) ↦
            let w' : W = (absorb digest writer chunk v w).1 in
            let run : (receive digest writer checksum (ok chunk ∷ rest) v w).0
                ≡ (receive digest writer checksum rest v' w').0 =
              rw (e, receive) refl in
            let a : Absorbed digest writer f chunk v w v' w' =
              absorb-Absorbed digest writer f chunk v w v' fits e in
            let r : Received rest v' w' n (receive digest writer checksum rest v' w').1 =
              receive-Received rest v' w' n (omega (arith, a.size_same, fits)) (sym run ∙ good) in
            rw (e, receive)
              (record {
                size_is = r.size_is ∙ a.size_same;
                clean = r.clean;
                content_is =
                    r.content_is
                    ∙ rw a.content_is (append_assoc (f.content w) chunk (bytes_of rest));
                counted = omega (
                  arith,
                  r.counted,
                  a.size_same,
                  a.written_is,
                  length-append chunk (bytes_of rest),
                );
                digest_is =
                    ap digest (sym (rw a.hasher_is (append_assoc v.hasher chunk (bytes_of rest))))
                    ∙ r.digest_is;
              })
      ]

  -- A verified download that returns `n` has put exactly the stream's bytes into the writer, in
  -- order and after what the writer already held. The stream came to its end without a failure, and
  -- its bytes have the metadata's size, which is `n`, and the metadata's checksum. The writer must
  -- be faithful, and the size less than the largest `u64`.
  pub download_verified_ok :
      (m : FileMetadata) (size : ℕ) (stream : List (Result Status (List ℕ))) (w : W) (n : ℕ)
      → size < max_u64
      → let done =
          download_verified_into digest writer
            (record m { size_bytes = size; checksum = checksum })
            (ok stream)
            w in
        done.0 ≡ ok n
        → (n ≡ size)
          × (is_clean stream ≡ true)
          × (length (bytes_of stream) ≡ size)
          × (digest (bytes_of stream) ≡ checksum)
          × (f.content done.1 ≡ f.content w ++ bytes_of stream)
  unfolding download_verified_into
  download_verified_ok m size stream w n fits good =
      let r : Received stream (new_download size) w n
          (receive digest writer checksum stream (new_download size) w).1 =
        receive-Received stream (new_download size) w n fits good in
      (r.size_is, r.clean, omega (arith, r.counted), r.digest_is, r.content_is)
