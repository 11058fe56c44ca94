-- ===== src/File/Rechunk/Turns.antt =====
-- What one pass of the loop in `rechunk_upload_requests` (`src/file.rs`) does, whichever branch it
-- takes.
use mathlib.Core.List.{append_assoc, append-nil}
use native.Mathlib.Decide.{dec_lt}
use rociadb_core_sdk_rust.Prelude.{
  ℕ, ◌+◌, ◌<◌, ◌≡◌, refl, sym, ap, ◌∙◌, ◌≢◌, ◌⊎◌, inl, inr, true, false, not, ◌&&◌, ◌||◌, none,
  some, List, [], ◌∷◌, ◌++◌, arith, ltb, leb, ◌==◌, Bool-cases, length, drop, is_empty, take_all,
  drop_all, ok, err,
}
use rociadb_core_sdk_rust.Error.{validation, fewer_than_declared, io}
use rociadb_core_sdk_rust.File.Upload.{UploadRequest, next_request}
use rociadb_core_sdk_rust.File.Rechunk.{
  Item, RechunkState, Turn, again, emit, finish, has_pending, pull, turn,
}
use rociadb_core_sdk_rust.File.Rechunk.Spec.{received, verdict, verdict-past}
use rociadb_core_sdk_rust.File.Rechunk.Progress.{
  todo, held, remaining, seen, judged, measure, IsValid, Continues,
}
use rociadb_core_sdk_rust.File.Rechunk.Drain.{drain-Continues}
use rociadb_core_sdk_rust.File.Rechunk.Ingest.{ingest-Continues}

-- A pass that yields a message: the whole buffer goes out, which is a full chunk or all that is
-- left. If the upload is going to fail, the message does not complete the declared size.
pub record Emits (c : ℕ) (s : RechunkState) (r : UploadRequest) (s' : RechunkState) : Type 0 where
  pub request_is : r ≡ next_request s.metadata s.size_bytes s.buffer
  pub valid : IsValid c s'
  pub smaller : measure s' < measure s
  pub same_size : s'.size_bytes ≡ s.size_bytes
  pub no_metadata : s'.metadata ≡ none
  pub wrote : s'.wrote_any ≡ true
  pub same_judged : judged s' ≡ judged s
  pub total_is : s'.total_written ≡ s.total_written + length s.buffer
  pub remaining_is : remaining s ≡ s.buffer ++ remaining s'
  pub shape :
      (length s.buffer ≡ c)
      ⊎ ((remaining s' ≡ []) × ((0 < length s.buffer) ⊎ (s.wrote_any ≡ false)))
  pub partial : judged s ≢ none → s.total_written + length s.buffer < s.size_bytes

-- A pass that ends the stream: the slot holds the verdict, and a good one leaves nothing unsent.
pub record Ends (s s' : RechunkState) : Type 0 where
  pub slot_is : s'.error_slot ≡ judged s
  pub all_sent : judged s ≡ none → (remaining s ≡ []) × (s.wrote_any ≡ true)

pub data View (c : ℕ) (s : RechunkState) : Turn → Type 0 where
  continues : {s' : RechunkState} → Continues c s s' → View c s (again s')
  emits : {r : UploadRequest} {s' : RechunkState} → Emits c s r s' → View c s (emit r s')
  ends : {s' : RechunkState} → Ends s s' → View c s (finish s')

module _ (c : ℕ) (positive : 0 < c) (s : RechunkState) (valid : IsValid c s) where
  -- More bytes than declared.
  overshoot-View : ltb s.size_bytes (seen s) ≡ true → View c s (turn c s)
  unfolding turn
  overshoot-View over =
      let past = verdict-past s.size_bytes (seen s) (todo s) (ground arith) in
      rw over (ends (record { slot_is = sym past; all_sent = λ fine. cc }))

  -- With the source at its end and every declared byte in hand, the upload is good.
  complete-judged : s.source_exhausted ≡ true → seen s ≡ s.size_bytes → judged s ≡ none
  complete-judged done all_seen = rw (done, all_seen) (ground arith)

  -- The completing chunk leaves only once the source is at its end.
  full_partial :
      ltb s.size_bytes (seen s) ≡ false
      → length s.buffer ≡ c
      → not (s.total_written + c == s.size_bytes) || s.source_exhausted ≡ true
      → judged s ≢ none
      → s.total_written + length s.buffer < s.size_bytes
  full_partial fits size free bad = elim (dec_lt (s.total_written + length s.buffer) s.size_bytes) [
    | yes less ↦ less
    | no complete ↦ absurd (bad (complete-judged (ground arith) (ground arith)))
  ]

  module _ (fits : ltb s.size_bytes (seen s) ≡ false) where
    full-View :
        leb c (length s.buffer) && (not (s.total_written + c == s.size_bytes) || s.source_exhausted)
          ≡ true
        → View c s (turn c s)
    unfolding turn
    full-View full =
        let size : length s.buffer ≡ c = ground (arith, valid.buffered) in
        rw (fits, full, take_all c s.buffer valid.buffered, drop_all c s.buffer valid.buffered)
          (emits (record {
            request_is = refl;
            valid = ground (arith, valid);
            smaller = ground (arith, valid);
            same_size = refl;
            no_metadata = refl;
            wrote = refl;
            same_judged = ap (λ k. verdict s.size_bytes k (todo s)) (omega arith);
            total_is = omega arith;
            remaining_is =
                append_assoc s.buffer (drop s.pending_offset s.pending) (received (todo s));
            shape = inl size;
            partial = full_partial fits size (ground arith);
          }))

    module _
        (not_full : leb c (length s.buffer)
            && (not (s.total_written + c == s.size_bytes) || s.source_exhausted)
          ≡ false) where
      -- A full buffer that waits for the source has nothing pending behind it.
      pending-View : has_pending s ≡ true → View c s (turn c s)
      unfolding turn
      pending-View more =
          rw (fits, not_full, more)
            (continues (drain-Continues c s valid more (ground (arith, valid.buffered))))

      module _ (drained : has_pending s ≡ false) where
        held-buffer : held s ≡ s.buffer
        held-buffer = rw (drop_all s.pending_offset s.pending (ground arith)) (append-nil s.buffer)

        -- The source ends, or fails when nothing is missing.
        exhausted-Continues :
            (rest : List Item)
            → s.source_exhausted ≡ false
            → received (todo s) ≡ []
            → judged s ≡ verdict s.size_bytes (seen s) []
            → Continues c s (record s { source = rest; source_exhausted = true })
        exhausted-Continues rest live nothing same = record {
          valid = ground (arith, valid);
          smaller = rw live (omega arith);
          same_remaining = ap (λ t. held s ++ t) (sym nothing);
          same_judged = sym same;
          same_size = refl;
          same_total = refl;
          same_wrote = refl;
          same_metadata = refl;
        }

        pull-View :
            (items : List Item)
            → s.source_exhausted ≡ false
            → todo s ≡ items
            → View c s (pull c items s)
        unfolding pull
        pull-View [] live e = continues (
            exhausted-Continues s.source live (ap received e)
              (ap (verdict s.size_bytes (seen s)) e))
        pull-View (ok piece ∷ rest) live e =
            continues (ingest-Continues c s valid piece rest e live drained (ground arith))
        pull-View (err x ∷ rest) live e =
            elim (Bool-cases (ltb 0 s.size_bytes && (seen s == s.size_bytes))) [
              | inl forgiven ↦
                  let same : verdict s.size_bytes (seen s) (err x ∷ rest)
                      ≡ verdict s.size_bytes (seen s) [] =
                    ground arith in
                  rw forgiven (
                    continues (
                      exhausted-Continues rest live (ap received e)
                        (ap (verdict s.size_bytes (seen s)) e ∙ same)))
              | inr bad ↦
                  let reads : verdict s.size_bytes (seen s) (err x ∷ rest)
                      ≡ some (io "the upload chunk stream" x) =
                    ground arith in
                  let failed : judged s ≡ some (io "the upload chunk stream" x) =
                    ap (verdict s.size_bytes (seen s)) e ∙ reads in
                  rw bad (ends (record { slot_is = sym failed; all_sent = λ fine. cc }))
            ]

        live-View : s.source_exhausted ≡ false → View c s (turn c s)
        unfolding turn
        live-View live =
            let items : todo s ≡ s.source = rw live in
            let going : not s.source_exhausted ≡ true = rw live in
            rw (fits, not_full, drained, going) (pull-View s.source live items)

        module _ (done : s.source_exhausted ≡ true) where
          over : not s.source_exhausted ≡ false
          over = rw done

          rest_empty : drop s.pending_offset s.pending ++ received (todo s) ≡ []
          rest_empty = rw (drop_all s.pending_offset s.pending (ground arith), done)

          nothing_left : remaining s ≡ s.buffer
          nothing_left =
              append_assoc s.buffer (drop s.pending_offset s.pending) (received (todo s))
              ∙ (ap (λ t. s.buffer ++ t) rest_empty ∙ append-nil s.buffer)

          -- What is buffered goes out; an empty file still has its one message.
          flush-View : not (is_empty s.buffer) || not s.wrote_any ≡ true → View c s (turn c s)
          unfolding turn
          flush-View some_left =
              let fresh : (0 < length s.buffer) ⊎ (s.wrote_any ≡ false) = ground arith in
              rw (fits, not_full, drained, over, some_left)
                (emits (record {
                  request_is = refl;
                  valid = ground (arith, valid);
                  smaller = ground (arith, fresh);
                  same_size = refl;
                  no_metadata = refl;
                  wrote = refl;
                  same_judged = ap (λ k. verdict s.size_bytes k (todo s)) (omega arith);
                  total_is = refl;
                  remaining_is =
                      append_assoc s.buffer (drop s.pending_offset s.pending) (received (todo s));
                  shape = inr (rest_empty, fresh);
                  partial = λ bad. elim (dec_lt (s.total_written + length s.buffer) s.size_bytes) [
                    | yes less ↦ less
                    | no complete ↦ absurd (bad (complete-judged done (ground arith)))
                  ];
                }))

          end-View : not (is_empty s.buffer) || not s.wrote_any ≡ false → View c s (turn c s)
          unfolding turn
          end-View none_left =
              let empty : s.buffer ≡ [] = ground arith in
              let written : seen s ≡ s.total_written = ground (arith, ap length empty) in
              elim (Bool-cases (s.total_written == s.size_bytes)) [
                | inl exact ↦
                    rw (fits, not_full, drained, over, none_left, exact)
                      (ends (record {
                        slot_is = valid.no_error ∙ sym (complete-judged done (ground arith));
                        all_sent = λ fine. (nothing_left ∙ empty, ground arith);
                      }))
                | inr short ↦
                    let missing : verdict s.size_bytes s.total_written []
                        ≡ some (validation (fewer_than_declared s.total_written s.size_bytes)) =
                      ground arith in
                    let failed : judged s
                        ≡ some (validation (fewer_than_declared s.total_written s.size_bytes)) =
                      rw (done, written) missing in
                    rw (fits, not_full, drained, over, none_left, short)
                      (ends (record { slot_is = sym failed; all_sent = λ fine. cc }))
              ]

  -- Every pass is one of the three.
  pub turn-View : View c s (turn c s)
  turn-View = elim (Bool-cases (ltb s.size_bytes (seen s))) [
    | inl more ↦ overshoot-View more
    | inr fits ↦
        elim (Bool-cases (
          leb c (length s.buffer)
          && (not (s.total_written + c == s.size_bytes) || s.source_exhausted))) [
            | inl full ↦ full-View fits full
            | inr not_full ↦ elim (Bool-cases (has_pending s)) [
              | inl more ↦ pending-View fits not_full more
              | inr drained ↦ elim (Bool-cases s.source_exhausted) [
                | inl done ↦ elim (Bool-cases (not (is_empty s.buffer) || not s.wrote_any)) [
                  | inl some_left ↦ flush-View fits not_full drained done some_left
                  | inr none_left ↦ end-View fits not_full drained done none_left
                ]
                | inr live ↦ live-View fits not_full drained live
              ]
            ]
          ]
  ]
