-- ===== src/File/Download/Tests.antt =====
-- Runs of a verified download, and its theorems at concrete inputs.
use rociadb_core_sdk_rust.Prelude.{
  ℕ, ◌+◌, ◌≤◌, ◌≡◌, refl, ap, true, List, [], ◌∷◌, ◌++◌, arith, length, length-append, Result, ok,
  err,
}
use rociadb_core_sdk_rust.Error.{Status, size_mismatch}
use rociadb_core_sdk_rust.File.Download.{
  FileMetadata, Writer, record_chunk, finish, absorb, receive, download_verified_into,
}
use rociadb_core_sdk_rust.File.Download.Verified.{
  Faithful, bytes_of, is_clean, download_verified_ok,
}
use rociadb_core_sdk_rust.File.Download.Completion.{
  download_verified_bounded, download_verified_completes,
}

-- A digest of one number: the bytes' sum.
abbrev sum : List ℕ → ℕ
sum [] = 0
sum (b ∷ bs) = b + sum bs

abbrev digest : List ℕ → List ℕ
digest bs = sum bs ∷ []

-- A writer into memory.
abbrev memory : Writer (List ℕ)
memory = record { write_all = λ b w. (ok tt, w ++ b); flush = λ w. (ok tt, w) }

memory-Faithful : Faithful memory
memory-Faithful = record {
  content = λ w. w;
  write_ok = λ b w good. refl;
  write_bounded = λ b w. omega (arith, length-append w b);
  flush_keeps = λ w. refl;
}

abbrev stream : List (Result Status (List ℕ))
stream = ok (1 ∷ 2 ∷ []) ∷ ok (3 ∷ []) ∷ []

abbrev three_bytes : FileMetadata
three_bytes = record {
  size_bytes = 3;
  content_type = "text/plain";
  checksum = 6 ∷ [];
  created_at = record { raw = [] };
  updated_at = record { raw = [] };
}

abbrev two_bytes : FileMetadata
two_bytes = record {
  size_bytes = 2;
  content_type = "text/plain";
  checksum = 6 ∷ [];
  created_at = record { raw = [] };
  updated_at = record { raw = [] };
}

accepted : download_verified_into digest memory three_bytes (ok stream) [] ≡ (ok 3, 1 ∷ 2 ∷ 3 ∷ [])
unfolding download_verified_into receive absorb record_chunk finish
accepted = refl

overshot :
    download_verified_into digest memory two_bytes (ok stream) []
    ≡ (err (size_mismatch 2 3), 1 ∷ 2 ∷ [])
unfolding download_verified_into receive absorb record_chunk finish
overshot = refl

download_verified_ok_example :
    (three_bytes.size_bytes ≡ 3)
    × (is_clean stream ≡ true)
    × (length (bytes_of stream) ≡ 3)
    × (digest (bytes_of stream) ≡ 6 ∷ [])
    × (memory-Faithful.content (download_verified_into digest memory three_bytes (ok stream) []).1
        ≡ memory-Faithful.content [] ++ bytes_of stream)
download_verified_ok_example =
    download_verified_ok digest memory memory-Faithful (6 ∷ []) three_bytes 3 stream [] 3
      (omega arith) (ap (λ r. r.0) accepted)

download_verified_bounded_example :
    length
      (memory-Faithful.content (download_verified_into digest memory two_bytes (ok stream) []).1)
    ≤ length (memory-Faithful.content []) + 2
download_verified_bounded_example =
    download_verified_bounded digest memory memory-Faithful two_bytes (ok stream) [] (omega arith)

download_verified_completes_example :
    (download_verified_into digest memory three_bytes (ok stream) []).0 ≡ ok 3
download_verified_completes_example =
    download_verified_completes digest memory (λ b w. refl) (λ w. refl) three_bytes 3 (6 ∷ [])
      stream [] (omega arith) refl refl refl
