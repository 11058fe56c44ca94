-- ===== src/Error/Digests.antt =====
-- What two checksum mismatches of `src/error.rs` print.
use Prim.Native.String
use Prim.Native.String.{String}
use mathlib.Core.List.{append_cancel_left}
use text.Mathlib.TextLemmas as TextLemmas
use rociadb_core_sdk_rust.Prelude.{
  ℕ, ◌/◌, ◌%◌, ◌<◌, ◌≡◌, refl, sym, ap, ◌∙◌, List, [], ◌∷◌, ◌++◌, arith, length,
}
use rociadb_core_sdk_rust.Error.{checksum_mismatch, hex}
use rociadb_core_sdk_rust.Error.Rendering.{Printers, display}
use rociadb_core_sdk_rust.Error.Hex.{
  codes, codes-append, AreBytes, digit_code, digit_value, digit_value-digit_code, hex_codes,
  codes-hex, unhex, unhex-hex_codes,
}

-- A digit is told by its code point.
digit_code_inj : (m n : ℕ) → m < 16 → n < 16 → digit_code m ≡ digit_code n → m ≡ n
digit_code_inj m n small small' same =
    sym (digit_value-digit_code m small) ∙ ap digit_value same ∙ digit_value-digit_code n small'

-- Digests of one length in front of anything are told apart.
hex_codes_inj :
    (a b s t : List ℕ)
    → AreBytes a
    → AreBytes b
    → length a ≡ length b
    → hex_codes a ++ s ≡ hex_codes b ++ t
    → (a ≡ b) × (s ≡ t)
hex_codes_inj [] [] s t small small' long same = (refl, same)
hex_codes_inj [] (y ∷ b) s t small small' long same = absurd (omega arith)
hex_codes_inj (x ∷ a) [] s t small small' long same = absurd (omega arith)
hex_codes_inj (x ∷ a) (y ∷ b) s t (small, rest) (small', rest') long same =
    let high : digit_code (x / 16) ≡ digit_code (y / 16) = cc same in
    let low : digit_code (x % 16) ≡ digit_code (y % 16) = cc same in
    let tail : hex_codes a ++ s ≡ hex_codes b ++ t = cc same in
    let high' : x / 16 ≡ y / 16 =
      digit_code_inj (x / 16) (y / 16) (omega arith) (omega arith) high in
    let low' : x % 16 ≡ y % 16 = digit_code_inj (x % 16) (y % 16) (omega arith) (omega arith) low in
    let byte : x ≡ y = omega (arith, high', low') in
    let (bytes, after) = hex_codes_inj a b s t rest rest' (omega (arith, long)) tail in
    (cc (byte, bytes), after)

parts :
    (middle : String) (e a : List ℕ)
    → AreBytes e
    → AreBytes a
    → hex_codes e ++ (codes middle ++ hex_codes a)
      ≡ codes (String.◌++◌ (hex e) (String.◌++◌ middle (hex a)))
parts middle e a e_bytes a_bytes = sym (
    codes-append (hex e) (String.◌++◌ middle (hex a))
    ∙ rw (codes-append middle (hex a), codes-hex e e_bytes, codes-hex a a_bytes) refl)

-- Two checksum mismatches that print alike have the same expected and the same actual digest, if the
-- expected ones are of one length. The digests must be bytes.
pub checksum_mismatch_told_apart :
    (print : Printers) (expected actual expected' actual' : List ℕ)
    → AreBytes expected
    → AreBytes actual
    → AreBytes expected'
    → AreBytes actual'
    → length expected ≡ length expected'
    → display print (checksum_mismatch expected actual)
      ≡ display print (checksum_mismatch expected' actual')
    → (expected ≡ expected') × (actual ≡ actual')
unfolding display
checksum_mismatch_told_apart print e a e' a' e_bytes a_bytes e'_bytes a'_bytes long same =
    let middle : String = " but the bytes received hash to " in
    let tail : String.◌++◌ (hex e) (String.◌++◌ middle (hex a))
        ≡ String.◌++◌ (hex e') (String.◌++◌ middle (hex a')) =
      TextLemmas.append_cancel_left
        "downloaded file failed SHA-256 verification: the server reported " _ _ same in
    let listed : hex_codes e ++ (codes middle ++ hex_codes a)
        ≡ hex_codes e' ++ (codes middle ++ hex_codes a') =
      parts middle e a e_bytes a_bytes
      ∙ ap codes tail
      ∙ sym (parts middle e' a' e'_bytes a'_bytes) in
    let (first, rest) =
      hex_codes_inj e e' (codes middle ++ hex_codes a) (codes middle ++ hex_codes a') e_bytes
        e'_bytes long listed in
    (
      first,
      sym (unhex-hex_codes a a_bytes)
          ∙ ap unhex (append_cancel_left (codes middle) (hex_codes a) (hex_codes a') rest)
          ∙ unhex-hex_codes a' a'_bytes,
    )
