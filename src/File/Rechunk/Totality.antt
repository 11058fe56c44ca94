-- ===== src/File/Rechunk/Totality.antt =====
-- The theorems on `rechunk_upload_requests` (`src/file.rs`): it always ends, with the verdict that
-- the source's items call for; a good upload is the one that `chunk_upload_requests` makes of the
-- same bytes; a bad one never gives the server a complete file.
use mathlib.Core.Path.{subst}
use rociadb_core_sdk_rust.Prelude.{
  ℕ, ◌+◌, ◌≤◌, ◌<◌, ◌≡◌, refl, ◌∙◌, ◌⊎◌, inl, inr, false, none, some, List, arith, length,
  Option-cases,
}
use rociadb_core_sdk_rust.Error.{Error}
use rociadb_core_sdk_rust.File.Upload.{UploadRequest, UploadMetadata, chunk_upload_requests}
use rociadb_core_sdk_rust.File.Upload.Pieces.{chunk_upload_requests-eq}
use rociadb_core_sdk_rust.File.Rechunk.{
  Item, RechunkState, Turn, again, emit, finish, turn, initial, weight, rechunk_upload_requests,
}
use rociadb_core_sdk_rust.File.Rechunk.Spec.{
  received, verdict, verdict-none, IsWhole, verdict-clean, verdict-whole,
}
use rociadb_core_sdk_rust.File.Rechunk.Progress.{IsValid}
use rociadb_core_sdk_rust.File.Rechunk.Turns.{View, continues, emits, ends, turn-View}
use rociadb_core_sdk_rust.File.Rechunk.Ending.{Outcome, plan, drive-Outcome}

initial-IsValid :
    (c size : ℕ) (m : UploadMetadata) (items : List Item) → IsValid c (initial size m items)
initial-IsValid c size m items = record {
  buffered = omega arith;
  within = omega arith;
  no_error = refl;
}

module _ (c : ℕ) (size : ℕ) (m : UploadMetadata) (items : List Item) (positive : 0 < c) where
  run-Outcome : Outcome c (initial size m items) (rechunk_upload_requests c size m items)
  unfolding rechunk_upload_requests
  run-Outcome =
      drive-Outcome c positive (weight items + 3) (initial size m items)
        (initial-IsValid c size m items) (omega arith)

  -- The stream always ends, whatever the source yields, and the error slot then holds exactly the
  -- error that the source's items call for. The chunk size must be positive.
  pub rechunk_upload_requests-verdict :
      (requests : List UploadRequest) × (rechunk_upload_requests c size m items
        ≡ some (requests, verdict size 0 items))
  rechunk_upload_requests-verdict = (run-Outcome.requests, run-Outcome.returns)

  plan-eq :
      length (received items) ≡ size
      → plan c (some m) size false (received items) ≡ chunk_upload_requests c (received items) m
  unfolding plan
  plan-eq exact = rw (chunk_upload_requests-eq c (received items) m, exact)

  -- A good verdict gives the stream of an upload of the same bytes from memory.
  pub rechunk-after_good_verdict :
      verdict size 0 items ≡ none
      → (rechunk_upload_requests c size m items
          ≡ some (chunk_upload_requests c (received items) m, none))
        × (length (received items) ≡ size)
  rechunk-after_good_verdict fine =
      let exact : length (received items) ≡ size = omega (arith, verdict-none size 0 items fine) in
      (run-Outcome.returns ∙ cc (run-Outcome.whole fine, plan-eq exact, fine), exact)

  -- If the source yields exactly the declared bytes (and, where these are none, does not fail), the
  -- message stream ends without an error and is, message for message, the one that
  -- `chunk_upload_requests` makes of the same bytes, however the source was cut into items; in every
  -- other case the stream leaves an error. The chunk size must be positive.
  pub rechunk_upload_requests-eq :
      (IsWhole size items
        × (rechunk_upload_requests c size m items
            ≡ some (chunk_upload_requests c (received items) m, none)))
      ⊎ ((¬ IsWhole size items)
          × (requests : List UploadRequest) × (e : Error) × (rechunk_upload_requests c size m items
              ≡ some (requests, some e)))
  rechunk_upload_requests-eq = elim (Option-cases (verdict size 0 items)) [
    | inl fine ↦
        let (eq, exact) = rechunk-after_good_verdict fine in
        inl ((exact, verdict-clean size 0 items fine), eq)
    | inr (e, bad) ↦ inr (
      λ (exact, clean).
          let fine : verdict size 0 items ≡ none =
            verdict-whole size 0 items (omega (arith, exact)) clean in
          cc (bad, fine),
      run-Outcome.requests,
      e,
      run-Outcome.returns ∙ rw bad refl,
    )
  ]

-- The states that the machine passes through.
pub data Reach (c : ℕ) (s : RechunkState) : RechunkState → Type 0 where
  here : Reach c s s
  round : {t u : RechunkState} → Reach c s t → turn c t ≡ again u → Reach c s u
  sent : {t u : RechunkState} {r : UploadRequest} → Reach c s t → turn c t ≡ emit r u → Reach c s u

-- The state that a pass goes on with is valid.
abbrev Leaves : ℕ → Turn → Type 0
Leaves c (again u) = IsValid c u
Leaves c (emit r u) = IsValid c u
Leaves c (finish u) = Unit

View-Leaves : {c : ℕ} {s : RechunkState} {t : Turn} → View c s t → Leaves c t
View-Leaves (continues k) = k.valid
View-Leaves (emits e) = e.valid
View-Leaves (ends e) = tt

Reach-IsValid : {c : ℕ} {s u : RechunkState} → 0 < c → IsValid c s → Reach c s u → IsValid c u
Reach-IsValid positive valid here = valid
Reach-IsValid {c} positive valid (round {t = t} r e) =
    subst (Leaves c) e (View-Leaves (turn-View c positive t (Reach-IsValid positive valid r)))
Reach-IsValid {c} positive valid (sent {t = t} r e) =
    subst (Leaves c) e (View-Leaves (turn-View c positive t (Reach-IsValid positive valid r)))

-- In every state that the machine passes through, the buffer holds at most one chunk, however large
-- an item the source yields, the offset lies within the pending item, and no error is recorded yet.
pub rechunk_buffer_bounded :
    (c size : ℕ) (m : UploadMetadata) (items : List Item) (s : RechunkState)
    → 0 < c
    → Reach c (initial size m items) s
    → (length s.buffer ≤ c) × (s.pending_offset ≤ length s.pending) × (s.error_slot ≡ none)
rechunk_buffer_bounded c size m items s positive r =
    let v : IsValid c s = Reach-IsValid positive (initial-IsValid c size m items) r in
    (v.buffered, v.within, v.no_error)
