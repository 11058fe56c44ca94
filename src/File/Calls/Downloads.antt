-- ===== src/File/Calls/Downloads.antt =====
-- The verified downloads of `src/file.rs` from end to end: the metadata, the stream and the checks.
use mathlib.Core.Path.{subst}
use rociadb_core_sdk_rust.Prelude.{
  ℕ, ◌<◌, ◌≡◌, refl, sym, ap, ◌∙◌, inl, inr, true, List, [], ◌++◌, arith, max_u64, length,
  length-append, Result, Result-cases, ok, err,
}
use rociadb_core_sdk_rust.Error.{Status}
use rociadb_core_sdk_rust.Client.{RociaDbClient}
use rociadb_core_sdk_rust.File.Download.{FileMetadata, Writer, download_verified_into}
use rociadb_core_sdk_rust.File.Download.Verified.{
  Faithful, bytes_of, is_clean, download_verified_ok,
}
use rociadb_core_sdk_rust.File.Calls.{
  FileKey, FileRpcs, vec_writer, stat_file, download_file_stream, download_file_verified,
  download_file_verified_to,
}

-- What a verified download has checked: the metadata that the server gave first, the stream that was
-- opened then, and its bytes, which have that metadata's size and checksum.
pub record Checked {W : Type 0} (client : RociaDbClient W) (rpcs : FileRpcs W)
    (digest : List ℕ → List ℕ) (key : FileKey) (w : W) (bytes : List ℕ) : Type 0 where
  pub metadata : FileMetadata
  pub stream : List (Result Status (List ℕ))
  pub has_metadata : (stat_file client rpcs key w).0 ≡ ok metadata
  pub was_opened :
      (download_file_stream client rpcs key (stat_file client rpcs key w).1).0 ≡ ok stream
  pub came_to_its_end : is_clean stream ≡ true
  pub bytes_are : bytes_of stream ≡ bytes
  pub size_is : length bytes ≡ metadata.size_bytes
  pub checksum_is : digest bytes ≡ metadata.checksum

abbrev vec_content : Faithful vec_writer
vec_content = record {
  content = λ bytes. bytes;
  write_ok = λ b bytes good. refl;
  write_bounded = λ b bytes. omega (arith, length-append bytes b);
  flush_keeps = λ bytes. refl;
}

module _ {W : Type 0} (client : RociaDbClient W) (rpcs : FileRpcs W) (digest : List ℕ → List ℕ)
    (key : FileKey) (w : W)
    (fits : (m : FileMetadata)
      → (stat_file client rpcs key w).0 ≡ ok m
      → m.size_bytes < max_u64) where
  -- What a download into a faithful writer has put there has been checked.
  pub download_file_verified_to-Checked :
      {V : Type 0} (writer : Writer V) (f : Faithful writer) (v : V) (n : ℕ)
      → let (answer, w', v') = download_file_verified_to client rpcs digest writer key w v in
        answer ≡ ok n
        → (bytes : List ℕ) × Checked client rpcs digest key w bytes
          × (n ≡ length bytes)
          × (f.content v' ≡ f.content v ++ bytes)
  unfolding download_file_verified_to download_verified_into
  download_file_verified_to-Checked writer f v n good =
      let (found, w1) = stat_file client rpcs key w in
      let (opened, w2) = download_file_stream client rpcs key w1 in
      elim (Result-cases found) [
        | inr (e, bad) ↦ absurd (ground arith)
        | inl (m, has) ↦ elim (Result-cases opened) [
          | inr (e, bad) ↦
              let stopped : (download_file_verified_to client rpcs digest writer key w v).0
                  ≡ err e =
                rw (has, download_file_verified_to) (rw (bad, download_verified_into) refl) in
              absurd (cc (good, stopped))
          | inl (stream, open_ok) ↦
              let (answer, v') = download_verified_into digest writer m (ok stream) v in
              let run : download_file_verified_to client rpcs digest writer key w v
                  ≡ (answer, w2, v') =
                rw (has, download_file_verified_to) (rw open_ok refl) in
              let (n_is, clean, counted, same, content_is) =
                download_verified_ok digest writer f m.checksum m m.size_bytes stream v n
                  (fits m has) (sym (ap (λ r. r.0) run) ∙ good) in
              (
                bytes_of stream,
                record {
                  metadata = m;
                  stream = stream;
                  has_metadata = has;
                  was_opened = open_ok;
                  came_to_its_end = clean;
                  bytes_are = refl;
                  size_is = counted;
                  checksum_is = same;
                },
                n_is ∙ sym counted,
                ap (λ r. f.content r.2) run ∙ content_is,
              )
        ]
      ]

  -- Bytes that download_file_verified returns are those of the stream that the server sent to its end,
  -- and have the size and the checksum of the metadata that it gave just before. That size must be
  -- less than the largest `u64`.
  pub download_file_verified-Checked :
      (bytes : List ℕ)
      → (download_file_verified client rpcs digest key w).0 ≡ ok bytes
      → Checked client rpcs digest key w bytes
  unfolding download_file_verified
  download_file_verified-Checked bytes good =
      let (answer, w', held) = download_file_verified_to client rpcs digest vec_writer key w [] in
      elim (Result-cases answer) [
        | inr (e, bad) ↦ absurd (ground arith)
        | inl (n, fine) ↦
            let (found, checked, n_is, content_is) =
              download_file_verified_to-Checked vec_writer vec_content [] n fine in
            let returned : held ≡ bytes = ground arith in
            subst (λ b. Checked client rpcs digest key w b) (sym content_is ∙ returned) checked
      ]
