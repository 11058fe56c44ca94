-- ===== src/File/Rechunk/Drain.antt =====
-- The pass that copies pending bytes to the buffer (`drain_pending` of `src/file.rs`).
use mathlib.Core.List.{append_assoc, append-nil}
use native.Mathlib.Decide.{dec_lt}
use rociadb_core_sdk_rust.Prelude.{
  ℕ, ◌+◌, ◌-◌, ◌≤◌, ◌<◌, min, ◌≡◌, refl, ap, true, List, [], ◌++◌, arith, length, take, drop,
  length-append, take-append-drop, length-take, length-drop, take_all, drop-drop,
}
use rociadb_core_sdk_rust.File.Rechunk.{RechunkState, has_pending, drain_pending}
use rociadb_core_sdk_rust.File.Rechunk.Spec.{received, verdict}
use rociadb_core_sdk_rust.File.Rechunk.Progress.{todo, held, seen, IsValid, Continues}

module _ (c : ℕ) (s : RechunkState) (valid : IsValid c s) where
  -- What `drain_pending` copies, and the two states that it can leave.
  abbrev copied : ℕ
  copied = min (c - length s.buffer) (length s.pending - s.pending_offset)

  abbrev filled : List ℕ
  filled = s.buffer ++ take copied (drop s.pending_offset s.pending)

  drain_part :
      has_pending s ≡ true
      → s.pending_offset + copied < length s.pending
      → drain_pending c s ≡ record s { buffer = filled; pending_offset = s.pending_offset + copied }
  unfolding drain_pending
  drain_part more left = ground arith

  drain_whole :
      has_pending s ≡ true
      → length s.pending ≤ s.pending_offset + copied
      → drain_pending c s ≡ record s { buffer = filled; pending = []; pending_offset = 0 }
  unfolding drain_pending
  drain_whole more all_copied = ground arith

  length-filled : length filled ≡ length s.buffer + copied
  length-filled = omega (
    arith,
    length-append s.buffer (take copied (drop s.pending_offset s.pending)),
    length-take copied (drop s.pending_offset s.pending),
    length-drop s.pending_offset s.pending,
  )

  drain-held : has_pending s ≡ true → held (drain_pending c s) ≡ held s
  drain-held more =
      let rest : List ℕ = drop s.pending_offset s.pending in
      elim (dec_lt (s.pending_offset + copied) (length s.pending)) [
        | yes left ↦ rw (drain_part more left) (
            rw (← drop-drop copied s.pending_offset s.pending)
              (simp (append_assoc, take-append-drop)))
        | no all_copied ↦ rw (drain_whole more (omega arith)) (
            rw (take_all copied rest (omega (arith, length-drop s.pending_offset s.pending)))
              (simp append-nil))
      ]

  drain-valid : has_pending s ≡ true → IsValid c (drain_pending c s)
  drain-valid more = elim (dec_lt (s.pending_offset + copied) (length s.pending)) [
    | yes left ↦ rw (drain_part more left) (ground (arith, length-filled))
    | no all_copied ↦ rw (drain_whole more (omega arith)) (ground (arith, length-filled))
  ]

  module _ (more : has_pending s ≡ true) (room : length s.buffer < c) where
    pub drain-Continues : Continues c s (drain_pending c s)
    drain-Continues = elim (dec_lt (s.pending_offset + copied) (length s.pending)) [
      | yes left ↦
          let same : s.total_written
                + (length filled + (length s.pending - (s.pending_offset + copied)))
              ≡ seen s =
            omega (arith, length-filled) in
          let held_same : held
                (record s { buffer = filled; pending_offset = s.pending_offset + copied })
              ≡ held s =
            rw (drain_part more left) at (drain-held more) in
          rw (drain_part more left) (record {
            valid = rw (drain_part more left) at (drain-valid more);
            smaller = ground (arith, length-filled);
            same_remaining = ap (λ h. h ++ received (todo s)) held_same;
            same_judged = ap (λ k. verdict s.size_bytes k (todo s)) same;
            same_size = refl;
            same_total = refl;
            same_wrote = refl;
            same_metadata = refl;
          })
      | no all_copied ↦
          let same : s.total_written + (length filled + (0 - 0)) ≡ seen s =
            omega (arith, length-filled, valid.within) in
          rw (drain_whole more (omega arith)) (record {
            valid = rw (drain_whole more (omega arith)) at (drain-valid more);
            smaller = ground (arith, length-filled);
            same_remaining =
                ap (λ h. h ++ received (todo s))
                  (rw (drain_whole more (omega arith)) at (drain-held more));
            same_judged = ap (λ k. verdict s.size_bytes k (todo s)) same;
            same_size = refl;
            same_total = refl;
            same_wrote = refl;
            same_metadata = refl;
          })
    ]
