-- ===== src/File/Rechunk/Ingest.antt =====
-- The pass that reads a piece of the source (`ingest` and `pull` of `src/file.rs`).
use mathlib.Core.List.{append_assoc, append-nil}
use rociadb_core_sdk_rust.Prelude.{
  ℕ, ◌+◌, ◌-◌, ◌*◌, ◌≤◌, ◌≡◌, sym, ap, ◌∙◌, inl, inr, false, List, [], ◌∷◌, ◌++◌, arith, leb,
  Bool-cases, length, take, drop, length-append, take-append-drop, length-take, drop_all, ok,
}
use rociadb_core_sdk_rust.File.Rechunk.{Item, RechunkState, unsent_len, has_pending, ingest, weight}
use rociadb_core_sdk_rust.File.Rechunk.Spec.{received, verdict, verdict-ok}
use rociadb_core_sdk_rust.File.Rechunk.Progress.{
  todo, held, remaining, seen, judged, IsValid, Continues,
}

module _ (c : ℕ) (s : RechunkState) (valid : IsValid c s) where
  -- With nothing pending the held bytes are the buffer.
  nothing_pending : has_pending s ≡ false → drop s.pending_offset s.pending ≡ []
  nothing_pending drained = drop_all s.pending_offset s.pending (ground arith)

  -- The piece that did not fit whole: its head goes to the buffer, its tail becomes pending.
  pub ingest-held :
      (piece : List ℕ) → has_pending s ≡ false → held (ingest c piece s) ≡ held s ++ piece
  unfolding ingest
  ingest-held piece drained = elim (Bool-cases (leb (length piece) (c - length s.buffer))) [
    | inl small ↦ rw (small, nothing_pending drained) (simp append-nil)
    | inr large ↦
        rw (large, nothing_pending drained) (simp (append-nil, append_assoc, take-append-drop))
  ]

  ingest-unsent_len :
      (piece : List ℕ)
      → has_pending s ≡ false
      → unsent_len (ingest c piece s) ≡ unsent_len s + length piece
  unfolding ingest
  ingest-unsent_len piece drained = ground (
    arith,
    length-append s.buffer piece,
    length-append s.buffer (take (c - length s.buffer) piece),
    length-take (c - length s.buffer) piece,
    valid.buffered,
  )

  ingest-valid : (piece : List ℕ) → IsValid c (ingest c piece s)
  unfolding ingest
  ingest-valid piece = ground (
    arith,
    length-append s.buffer piece,
    length-append s.buffer (take (c - length s.buffer) piece),
    length-take (c - length s.buffer) piece,
    valid.buffered,
    valid.within,
    valid.no_error,
  )

  ingest-length :
      (piece : List ℕ)
      → length (ingest c piece s).buffer
          + 2 * (length (ingest c piece s).pending - (ingest c piece s).pending_offset)
        ≤ length s.buffer + 2 * (length s.pending - s.pending_offset) + 2 * length piece
  unfolding ingest
  ingest-length piece = ground (
    arith,
    length-append s.buffer piece,
    length-append s.buffer (take (c - length s.buffer) piece),
    length-take (c - length s.buffer) piece,
  )

  -- Only the buffer and the pending piece change.
  record Ingested (s' : RechunkState) : Type 0 where
    source_is : s'.source ≡ s.source
    size_is : s'.size_bytes ≡ s.size_bytes
    total_is : s'.total_written ≡ s.total_written
    wrote_is : s'.wrote_any ≡ s.wrote_any
    exhausted_is : s'.source_exhausted ≡ s.source_exhausted
    metadata_is : s'.metadata ≡ s.metadata

  ingest-Ingested : (piece : List ℕ) → Ingested (ingest c piece s)
  unfolding ingest
  ingest-Ingested piece = ground arith

-- A piece is read: `pulled` is the state without it.
module _ (c : ℕ) (s : RechunkState) (valid : IsValid c s) (piece : List ℕ) (rest : List Item)
    (items : todo s ≡ ok piece ∷ rest) (live : s.source_exhausted ≡ false)
    (drained : has_pending s ≡ false) (fits : seen s ≤ s.size_bytes) where
  judged-piece : judged s ≡ verdict s.size_bytes (seen s + length piece) rest
  judged-piece =
      ap (verdict s.size_bytes (seen s)) items ∙ verdict-ok s.size_bytes (seen s) piece rest fits

  remaining-piece : remaining s ≡ held s ++ (piece ++ received rest)
  remaining-piece = ap (λ t. held s ++ received t) items

  weight-piece : weight (todo s) ≡ 2 * length piece + 1 + weight rest
  weight-piece = ap weight items

  abbrev pulled : RechunkState
  pulled = record s { source = rest }

  pulled-valid : IsValid c pulled
  pulled-valid = record {
    buffered = valid.buffered;
    within = valid.within;
    no_error = valid.no_error;
  }

  abbrev fed : RechunkState
  fed = ingest c piece pulled

  fed-Ingested : Ingested c pulled pulled-valid fed
  fed-Ingested = ingest-Ingested c pulled pulled-valid piece

  todo-fed : todo fed ≡ rest
  todo-fed = ground (arith, fed-Ingested)

  seen-fed : seen fed ≡ seen s + length piece
  seen-fed =
      omega (arith, fed-Ingested.total_is, ingest-unsent_len c pulled pulled-valid piece drained)

  pub ingest-Continues : Continues c s fed
  ingest-Continues = record {
    valid = ingest-valid c pulled pulled-valid piece;
    smaller = ground (
      arith,
      fed-Ingested,
      ap weight todo-fed,
      weight-piece,
      ingest-length c pulled pulled-valid piece,
    );
    same_remaining =
        rw (todo-fed, ingest-held c pulled pulled-valid piece drained)
          (append_assoc (held s) piece (received rest) ∙ sym remaining-piece);
    same_judged = rw (fed-Ingested.size_is, seen-fed, todo-fed) (sym judged-piece);
    same_size = fed-Ingested.size_is;
    same_total = fed-Ingested.total_is;
    same_wrote = fed-Ingested.wrote_is;
    same_metadata = fed-Ingested.metadata_is;
  }
