-- ===== src/File/Upload/Counting.antt =====
-- How many pieces the bytes that are left make, before and after a message has gone out.
use native.Mathlib.Nat.{
  add-div_left, add-mod_left, mod-eq_of_lt, div-eq_of_lt, mod_self, div_self, zero-mod, zero-div,
}
use mathlib.Core.Path.{subst}
use native.Mathlib.Decide.{dec_lt}
use rociadb_core_sdk_rust.Prelude.{
  ℕ, suc, ◌+◌, ◌≤◌, ◌<◌, ◌≡◌, refl, ap, ◌∙◌, ◌⊎◌, inl, inr, Bool, true, false, List, [], ◌∷◌, ◌++◌,
  arith, if◌then◌else◌, length, take, drop, is_empty, length-append, take_all, take-append,
  drop-append, take-nil,
}
use rociadb_core_sdk_rust.File.Upload.{div_ceil}
use rociadb_core_sdk_rust.File.Upload.Pieces.{pieces}

-- An upload that has sent nothing yet sends one message even if no bytes are left.
abbrev pub piece_count : ℕ → Bool → List ℕ → ℕ
piece_count c wrote bytes =
    if is_empty bytes then (if wrote then 0 else 1) else div_ceil (length bytes) c

div_ceil-add : (c k : ℕ) → 0 < c → div_ceil (c + k) c ≡ suc (div_ceil k c)
div_ceil-add c k positive = rw (add-mod_left c k, add-div_left k positive) (ground arith)

div_ceil_small : (c k : ℕ) → 0 < k → k ≤ c → div_ceil k c ≡ 1
div_ceil_small c k some_bytes fits = elim (dec_lt k c) [
  | yes less ↦ rw (mod-eq_of_lt less, div-eq_of_lt less) (ground arith)
  | no same ↦ let e : k ≡ c = omega arith in rw (e, mod_self c, div_self {n = c} (omega arith)) refl
]

div_ceil_zero : (c : ℕ) → div_ceil 0 c ≡ 0
div_ceil_zero c = rw (zero-mod c, zero-div c)

later-count : (c : ℕ) (back : List ℕ) → div_ceil (length back) c ≡ piece_count c true back
later-count c [] = div_ceil_zero c
later-count c (b ∷ back) = refl

module _ (c : ℕ) (positive : 0 < c) where
  -- A full piece in front is one more piece.
  pub full-piece :
      (wrote : Bool) (front back : List ℕ)
      → length front ≡ c
      → pieces c (piece_count c wrote (front ++ back)) (front ++ back)
        ≡ front ∷ pieces c (piece_count c true back) back
  full-piece wrote [] back full = absurd (omega arith)
  full-piece wrote (b ∷ front) back full =
      let whole : List ℕ = b ∷ (front ++ back) in
      let more : div_ceil (length whole) c ≡ suc (piece_count c true back) =
        ap (λ k. div_ceil k c) (omega (arith, length-append front back))
        ∙ (div_ceil-add c (length back) positive ∙ ap suc (later-count c back)) in
      let head : take c whole ≡ b ∷ front =
        subst (λ k. take k whole ≡ b ∷ front) full (take-append (b ∷ front) back) in
      let tail : drop c whole ≡ back =
        subst (λ k. drop k whole ≡ back) full (drop-append (b ∷ front) back) in
      rw (more, head, tail)

  -- The last piece.
  pub last-piece :
      (wrote : Bool) (front : List ℕ)
      → length front ≤ c
      → (0 < length front) ⊎ (wrote ≡ false)
      → pieces c (piece_count c wrote front) front ≡ front ∷ []
  last-piece wrote [] fits some_left = elim some_left [
    | inl p ↦ absurd (omega arith)
    | inr e ↦ rw e (rw (take-nil c))
  ]
  last-piece wrote (b ∷ front) fits some_left =
      rw (div_ceil_small c (length (b ∷ front)) (omega arith) fits)
        (rw (take_all c (b ∷ front) fits))
