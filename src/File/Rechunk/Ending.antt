-- ===== src/File/Rechunk/Ending.antt =====
-- How a run of `rechunk_upload_requests` (`src/file.rs`) ends, from any state of its machine.
use mathlib.Core.Path.{◌≡⟨◌⟩◌, ◌∎}
use mathlib.Core.List.{append_assoc, append-nil}
use rociadb_core_sdk_rust.Prelude.{
  ℕ, zero, suc, ◌+◌, ◌≤◌, ◌<◌, ◌≡◌, refl, sym, ap, ◌∙◌, ◌≢◌, ◌⊎◌, inl, inr, Bool, true, false,
  Option, none, some, List, [], ◌∷◌, ◌++◌, arith, length, length-append,
}
use rociadb_core_sdk_rust.Error.{Error}
use rociadb_core_sdk_rust.File.Upload.{UploadRequest, UploadMetadata, next_request}
use rociadb_core_sdk_rust.File.Upload.Pieces.{pieces, label, payload, chunk-next_request}
use rociadb_core_sdk_rust.File.Upload.Counting.{piece_count, full-piece, last-piece}
use rociadb_core_sdk_rust.File.Rechunk.{RechunkState, Turn, emit, drive, resume}
use rociadb_core_sdk_rust.File.Rechunk.Progress.{remaining, judged, measure, IsValid, Continues}
use rociadb_core_sdk_rust.File.Rechunk.Turns.{View, continues, emits, ends, Emits, Ends, turn-View}

abbrev pub Run : Type 0
Run = Option (List UploadRequest × Option Error)

-- The messages that carry the bytes that are left.
unfoldable pub plan : ℕ → Option UploadMetadata → ℕ → Bool → List ℕ → List UploadRequest
plan c m size wrote bytes = label m size (pieces c (piece_count c wrote bytes) bytes)

abbrev pub planned : ℕ → RechunkState → List UploadRequest
planned c s = plan c s.metadata s.size_bytes s.wrote_any (remaining s)

-- A run that ends with the verdict in the slot: after a good verdict it has sent the plan, after
-- a bad one nothing at all or less than the declared size, and in any case a prefix of the bytes.
pub record Outcome (c : ℕ) (s : RechunkState) (run : Run) : Type 0 where
  pub requests : List UploadRequest
  pub unsent : List ℕ
  pub returns : run ≡ some (requests, judged s)
  pub whole : judged s ≡ none → requests ≡ planned c s
  pub partial :
      judged s ≢ none
      → (requests ≡ []) ⊎ (s.total_written + length (payload requests) < s.size_bytes)
  pub prefix : remaining s ≡ payload requests ++ unsent

Continues-Outcome :
    (c : ℕ) {s s' : RechunkState} (run : Run)
    → Continues c s s'
    → Outcome c s' run
    → Outcome c s run
Continues-Outcome c {s} {s'} run k o = record {
  requests = o.requests;
  unsent = o.unsent;
  returns = o.returns ∙ ap (λ j. some (o.requests, j)) k.same_judged;
  whole = λ fine.
      o.whole (k.same_judged ∙ fine)
      ∙ cc (k.same_metadata, k.same_size, k.same_wrote, k.same_remaining);
  partial = λ bad. elim (o.partial (λ e. bad (sym k.same_judged ∙ e))) [
    | inl nothing ↦ inl nothing
    | inr less ↦ inr (omega arith)
  ];
  prefix = sym k.same_remaining ∙ o.prefix;
}

-- The message that goes out is the first of the plan.
plan-front :
    (c : ℕ) (m : Option UploadMetadata) (size : ℕ) (wrote : Bool) (front back : List ℕ)
    → 0 < c
    → length front ≤ c
    → (length front ≡ c) ⊎ ((back ≡ []) × ((0 < length front) ⊎ (wrote ≡ false)))
    → plan c m size wrote (front ++ back) ≡ next_request m size front ∷ plan c none size true back
unfolding plan
plan-front c m size wrote front back positive fits (inl full) =
    rw (full-piece c positive wrote front back full)
plan-front c m size wrote front back positive fits (inr (empty, some_left)) =
    rw (empty, append-nil front) (rw (last-piece c positive wrote front fits some_left))

module _ (c : ℕ) (positive : 0 < c) {s s' : RechunkState} {r : UploadRequest} (valid : IsValid c s)
    (e : Emits c s r s') where
  emits-plan : planned c s ≡ r ∷ planned c s'
  emits-plan =
      planned c s
      ≡⟨ ap (plan c s.metadata s.size_bytes s.wrote_any) e.remaining_is ⟩
        plan c s.metadata s.size_bytes s.wrote_any (s.buffer ++ remaining s')
      ≡⟨ plan-front c s.metadata s.size_bytes s.wrote_any s.buffer (remaining s') positive
          valid.buffered e.shape ⟩
        next_request s.metadata s.size_bytes s.buffer ∷ plan c none s.size_bytes true (remaining s')
      ≡⟨ cc (e.request_is, e.same_size, e.no_metadata, e.wrote) ⟩ r ∷ planned c s' ∎

  chunk-emits : r.chunk ≡ s.buffer
  chunk-emits = ap (λ q. q.chunk) e.request_is ∙ chunk-next_request s.metadata s.size_bytes s.buffer

  sent :
      (run : Run) (o : Outcome c s' run)
      → length (payload (r ∷ o.requests)) ≡ length s.buffer + length (payload o.requests)
  sent run o = omega (arith, length-append r.chunk (payload o.requests), ap length chunk-emits)

  Emits-Outcome : (run : Run) → Outcome c s' run → Outcome c s (resume c (λ t. run) (emit r s'))
  Emits-Outcome run o = record {
    requests = r ∷ o.requests;
    unsent = o.unsent;
    returns =
        ap (λ u. resume c (λ t. u) (emit r s')) o.returns
        ∙ ap (λ j. some (r ∷ o.requests, j)) e.same_judged;
    whole = λ fine. ap (λ t. r ∷ t) (o.whole (e.same_judged ∙ fine)) ∙ sym emits-plan;
    partial = λ bad. inr (elim (o.partial (λ fine. bad (sym e.same_judged ∙ fine))) [
      | inl nothing ↦ omega (arith, sent run o, e.partial bad, ap (λ q. length (payload q)) nothing)
      | inr less ↦ omega (arith, sent run o)
    ]);
    prefix =
        e.remaining_is
        ∙ (cc (chunk-emits, o.prefix) ∙ sym (append_assoc r.chunk (payload o.requests) o.unsent));
  }

plan-done : (c : ℕ) (m : Option UploadMetadata) (size : ℕ) → plan c m size true [] ≡ []
unfolding plan
plan-done c m size = refl

Ends-Outcome : (c : ℕ) {s s' : RechunkState} → Ends s s' → Outcome c s (some ([], s'.error_slot))
Ends-Outcome c {s} {s'} e = record {
  requests = [];
  unsent = remaining s;
  returns = ap (λ j. some ([], j)) e.slot_is;
  whole = λ fine.
      let (empty, wrote) = e.all_sent fine in
      sym (cc (empty, wrote, plan-done c s.metadata s.size_bytes));
  partial = λ bad. inl refl;
  prefix = refl;
}

-- A pass, and what the rest of the run makes of the state that it leaves.
resume-Outcome :
    (c : ℕ) (positive : 0 < c) {s : RechunkState} {t : Turn} (rest : RechunkState → Run)
    → IsValid c s
    → View c s t
    → ((s' : RechunkState) → IsValid c s' → measure s' < measure s → Outcome c s' (rest s'))
    → Outcome c s (resume c rest t)
resume-Outcome c positive rest valid (continues {s' = s'} k) later =
    Continues-Outcome c (rest s') k (later s' k.valid k.smaller)
resume-Outcome c positive rest valid (emits {s' = s'} e) later =
    Emits-Outcome c positive valid e (rest s') (later s' e.valid e.smaller)
resume-Outcome c positive rest valid (ends e) later = Ends-Outcome c e

-- With more fuel than the measure every run ends, with the verdict.
pub drive-Outcome :
    (c : ℕ) (positive : 0 < c) (fuel : ℕ) (s : RechunkState)
    → IsValid c s
    → measure s < fuel
    → Outcome c s (drive c fuel s)
unfolding drive
drive-Outcome c positive zero s valid enough = absurd (omega arith)
drive-Outcome c positive (suc fuel) s valid enough =
    resume-Outcome c positive (drive c fuel) valid (turn-View c positive s valid)
      (λ s' v less. drive-Outcome c positive fuel s' v (omega arith))
