-- ===== src/File/Upload/Pieces.antt =====
-- An independent description of how a file is cut into messages, for both ways of uploading
-- (`chunk_upload_requests` and `rechunk_upload_requests` of `src/file.rs`).
use native.Mathlib.Nat.{div-add-mod', mod-lt}
use rociadb_core_sdk_rust.Prelude.{
  ℕ, zero, suc, ◌+◌, ◌-◌, ◌*◌, ◌/◌, ◌%◌, ◌≤◌, ◌<◌, min, ◌≡◌, refl, ap, ◌∙◌, ◌≢◌, inl, inr, true,
  false, Option, none, some, List, [], ◌∷◌, ◌++◌, arith, ◌==◌, Bool-cases, length, take, drop,
  take-append-drop, length-take, length-drop, take-nil, drop-drop,
}
use rociadb_core_sdk_rust.File.Upload.{
  UploadRequest, UploadMetadata, next_request, div_ceil, chunk_count, chunk_at, requests_from,
  chunk_upload_requests,
}

-- `n` pieces of `c` bytes from the front; the last may be shorter.
abbrev pub pieces : ℕ → ℕ → List ℕ → List (List ℕ)
pieces c zero bytes = []
pieces c (suc n) bytes = take c bytes ∷ pieces c n (drop c bytes)

-- One message for each piece, with the metadata in the first.
abbrev pub label : Option UploadMetadata → ℕ → List (List ℕ) → List UploadRequest
label m size [] = []
label m size (p ∷ ps) = next_request m size p ∷ label none size ps

-- The bytes that the messages carry, in order.
abbrev pub payload : List UploadRequest → List ℕ
payload [] = []
payload (r ∷ rs) = r.chunk ++ payload rs

-- Every piece but the last is `c` bytes long, and the last is at most that.
abbrev pub AreChunks : ℕ → List UploadRequest → Type 0
AreChunks c [] = Unit
AreChunks c (r ∷ []) = length r.chunk ≤ c
AreChunks c (r ∷ s ∷ rs) = (length r.chunk ≡ c) × AreChunks c (s ∷ rs)

pub chunk-next_request :
    (m : Option UploadMetadata) (size : ℕ) (p : List ℕ) → (next_request m size p).chunk ≡ p
chunk-next_request none size p = refl
chunk-next_request (some m) size p = refl

-- `n` pieces of `c` bytes cover the bytes, with no piece to spare.
pub record Covers (c n : ℕ) (bytes : List ℕ) : Type 0 where
  pub enough : length bytes ≤ n * c
  pub tight : n * c < length bytes + c

-- From the number of the bytes, how many pieces there are: none for no bytes.
pub div_ceil-Covers : (c : ℕ) (bytes : List ℕ) → 0 < c → Covers c (div_ceil (length bytes) c) bytes
div_ceil-Covers c bytes positive =
    let n : ℕ = length bytes in
    elim (Bool-cases (n % c == 0)) [
      | inl e ↦ rw e (record { enough = exact e; tight = omega (arith, div-add-mod' n c) })
      | inr e ↦ rw e (record {
        enough = omega (arith, div-add-mod' n c, mod-lt n positive);
        tight = ground (arith, e, div-add-mod' n c);
      })
    ]
  where
    exact : (length bytes % c == 0) ≡ true → length bytes ≤ length bytes / c * c
    exact e = ground (arith, div-add-mod' (length bytes) c)

-- The pieces hold all the bytes, in order.
pub payload-label :
    (c n : ℕ) (m : Option UploadMetadata) (size : ℕ) (bytes : List ℕ)
    → length bytes ≤ n * c
    → payload (label m size (pieces c n bytes)) ≡ bytes
payload-label c zero m size [] h = refl
payload-label c zero m size (b ∷ bytes) h = absurd (omega arith)
payload-label c (suc n) m size bytes h =
    rw
      (
        chunk-next_request,
        payload-label c n none size (drop c bytes) (omega (arith, length-drop c bytes)),
      )
      (take-append-drop c bytes)

-- Every message but the last is full.
pub label-AreChunks :
    (c n : ℕ) (m : Option UploadMetadata) (size : ℕ) (bytes : List ℕ)
    → 0 < c
    → n * c < length bytes + c
    → AreChunks c (label m size (pieces c n bytes))
label-AreChunks c zero m size bytes positive h = tt
label-AreChunks c (suc zero) m size bytes positive h =
    rw chunk-next_request (omega (arith, length-take c bytes))
label-AreChunks c (suc (suc n)) m size bytes positive h = (
  rw chunk-next_request (omega (arith, length-take c bytes)),
  label-AreChunks c (suc n) none size (drop c bytes) positive (omega (arith, length-drop c bytes)),
)

label-ne_nil :
    (c n : ℕ) (m : Option UploadMetadata) (size : ℕ) (bytes : List ℕ)
    → 0 < n
    → label m size (pieces c n bytes) ≢ []
label-ne_nil c zero m size bytes h e = absurd (omega arith)
label-ne_nil c (suc n) m size bytes h e = cc

take-min : (n : ℕ) (xs : List ℕ) → take (min n (length xs)) xs ≡ take n xs
take-min zero xs = let e : min zero (length xs) ≡ zero = omega arith in rw e
take-min (suc n) [] = let e : min (suc n) 0 ≡ 0 = omega arith in rw e
take-min (suc n) (x ∷ xs) =
    let e : min (suc n) (suc (length xs)) ≡ suc (min n (length xs)) = omega arith in
    rw (e, take-min n xs)

-- The slices that `chunk_upload_requests` takes by index are the pieces from the front.
chunk_at-eq :
    (c : ℕ) (bytes : List ℕ) (index : ℕ) → chunk_at c bytes index ≡ take c (drop (index * c) bytes)
chunk_at-eq c bytes index =
    let rest : List ℕ = drop (index * c) bytes in
    let e : min (index * c + c) (length bytes) - index * c ≡ min c (length rest) =
      omega (arith, length-drop (index * c) bytes) in
    rw e (take-min c rest)

-- After the first message.
requests_from-eq-label :
    (c : ℕ) (bytes : List ℕ) (left index : ℕ)
    → 0 < index
    → requests_from c bytes left index none
      ≡ label none (length bytes) (pieces c left (drop (index * c) bytes))
unfolding requests_from
requests_from-eq-label c bytes zero index h = refl
requests_from-eq-label c bytes (suc left) index h =
    let later : drop c (drop (index * c) bytes) ≡ drop ((index + 1) * c) bytes =
      drop-drop c (index * c) bytes ∙ ap (λ k. drop k bytes) (omega arith) in
    let not_first : (index == 0) ≡ false = ground arith in
    rw (
      requests_from-eq-label c bytes left (index + 1) (omega arith),
      not_first,
      chunk_at-eq c bytes index,
      later,
    )

first-eq-label :
    (c : ℕ) (bytes : List ℕ) (left : ℕ) (m : UploadMetadata)
    → requests_from c bytes left 0 (some m) ≡ label (some m) (length bytes) (pieces c left bytes)
unfolding requests_from
first-eq-label c bytes zero m = refl
first-eq-label c bytes (suc left) m =
    let start : 0 * c ≡ 0 = omega arith in
    let second : 1 * c ≡ c = omega arith in
    rw (requests_from-eq-label c bytes left 1 (omega arith), chunk_at-eq c bytes 0, start, second)

-- The messages of an upload from memory are the file's pieces, with the metadata and the file's
-- size in the first message and in no other.
pub chunk_upload_requests-eq :
    (c : ℕ) (bytes : List ℕ) (m : UploadMetadata)
    → chunk_upload_requests c bytes m
      ≡ label (some m) (length bytes) (pieces c (chunk_count c bytes) bytes)
unfolding chunk_upload_requests
chunk_upload_requests-eq c bytes m = first-eq-label c bytes (chunk_count c bytes) m

-- An upload from memory sends exactly the file's bytes, in order, in messages that are full but
-- for the last; none is longer than a chunk, and an empty file still takes one message.
pub chunk_upload_requests_lem :
    (c : ℕ) (bytes : List ℕ) (m : UploadMetadata)
    → 0 < c
    → let requests = chunk_upload_requests c bytes m in
      (payload requests ≡ bytes) × AreChunks c requests × (requests ≢ [])
chunk_upload_requests_lem c [] m positive =
    rw (chunk_upload_requests-eq c [] m) (rw (take-nil c) (refl, omega arith, λ e. cc))
chunk_upload_requests_lem c (b ∷ bytes) m positive =
    let h : Covers c (div_ceil (length (b ∷ bytes)) c) (b ∷ bytes) =
      div_ceil-Covers c (b ∷ bytes) positive in
    rw (chunk_upload_requests-eq c (b ∷ bytes) m) (
      payload-label c _ (some m) _ (b ∷ bytes) h.enough,
      label-AreChunks c _ (some m) _ (b ∷ bytes) positive h.tight,
      label-ne_nil c _ (some m) _ (b ∷ bytes) (ground (arith, h.enough)),
    )
