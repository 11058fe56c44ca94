-- ===== src/Error/Hex.antt =====
-- The hexadecimal rendering of digests (`hex` of `src/error.rs`), read back.
use Prim.Native.Char.{code}
use Prim.Native.String
use Prim.Native.String.{String}
use text.Mathlib.TextLemmas.{nil-append, cons-append}
use rociadb_core_sdk_rust.Prelude.{
  ℕ, zero, suc, ◌+◌, ◌-◌, ◌*◌, ◌/◌, ◌%◌, ◌<◌, ◌≡◌, refl, ap, ◌∙◌, List, [], ◌∷◌, ◌++◌, arith, ltb,
  if◌then◌else◌,
}
use rociadb_core_sdk_rust.Error.{hex, hex_digit}

-- The code points of a text.
abbrev pub codes : String → List ℕ
codes String.[] = []
codes (String.◌∷◌ c s) = code c ∷ codes s

pub codes-append : (s t : String) → codes (String.◌++◌ s t) ≡ codes s ++ codes t
codes-append String.[] t = rw (nil-append t) refl
codes-append (String.◌∷◌ c s) t = rw (cons-append c s t) (ap (λ l. code c ∷ l) (codes-append s t))

-- The number of a lower-case digit, and a digit's code point.
abbrev pub digit_value : ℕ → ℕ
digit_value c = if ltb c 58 then c - 48 else c - 87

abbrev pub digit_code : ℕ → ℕ
digit_code n = if ltb n 10 then 48 + n else 87 + n

-- Two digits make a byte.
abbrev pub unhex : List ℕ → List ℕ
unhex [] = []
unhex (high ∷ []) = []
unhex (high ∷ low ∷ rest) = (digit_value high * 16 + digit_value low) ∷ unhex rest

-- Every one of the numbers is a byte.
abbrev pub AreBytes : List ℕ → Type 0
AreBytes [] = Unit {0}
AreBytes (byte ∷ bytes) = (byte < 256) × AreBytes bytes

codes-hex_digit : (n : ℕ) → n < 16 → codes (hex_digit n) ≡ digit_code n ∷ []
codes-hex_digit zero small = refl
codes-hex_digit (suc zero) small = refl
codes-hex_digit (suc (suc zero)) small = refl
codes-hex_digit (suc (suc (suc zero))) small = refl
codes-hex_digit (suc (suc (suc (suc zero)))) small = refl
codes-hex_digit (suc (suc (suc (suc (suc zero))))) small = refl
codes-hex_digit (suc (suc (suc (suc (suc (suc zero)))))) small = refl
codes-hex_digit (suc (suc (suc (suc (suc (suc (suc zero))))))) small = refl
codes-hex_digit (suc (suc (suc (suc (suc (suc (suc (suc zero)))))))) small = refl
codes-hex_digit (suc (suc (suc (suc (suc (suc (suc (suc (suc zero))))))))) small = refl
codes-hex_digit (suc (suc (suc (suc (suc (suc (suc (suc (suc (suc zero)))))))))) small = refl
codes-hex_digit (suc (suc (suc (suc (suc (suc (suc (suc (suc (suc (suc zero))))))))))) small = refl
codes-hex_digit (suc (suc (suc (suc (suc (suc (suc (suc (suc (suc (suc (suc zero)))))))))))) small =
    refl
codes-hex_digit (suc (suc (suc (suc (suc (suc (suc (suc (suc (suc (suc (suc (suc zero)))))))))))))
      small =
    refl
codes-hex_digit
      (suc (suc (suc (suc (suc (suc (suc (suc (suc (suc (suc (suc (suc (suc zero))))))))))))))
      small =
    refl
codes-hex_digit
      (suc (suc (suc (suc (suc (suc (suc (suc (suc (suc (suc (suc (suc (suc (suc zero)))))))))))))))
      small =
    refl
codes-hex_digit
      (suc
        (suc (suc (suc (suc (suc (suc (suc (suc (suc (suc (suc (suc (suc (suc (suc n))))))))))))))))
      small =
    absurd (omega arith)

abbrev pub hex_codes : List ℕ → List ℕ
hex_codes [] = []
hex_codes (byte ∷ bytes) = digit_code (byte / 16) ∷ digit_code (byte % 16) ∷ hex_codes bytes

pub codes-hex : (bytes : List ℕ) → AreBytes bytes → codes (hex bytes) ≡ hex_codes bytes
unfolding hex
codes-hex [] small = refl
codes-hex (byte ∷ bytes) (small, rest) =
    codes-append (hex_digit (byte / 16)) (String.◌++◌ (hex_digit (byte % 16)) (hex bytes))
    ∙ rw
        (
          codes-hex_digit (byte / 16) (omega arith),
          codes-append (hex_digit (byte % 16)) (hex bytes),
          codes-hex_digit (byte % 16) (omega arith),
          codes-hex bytes rest,
        )
        refl

pub digit_value-digit_code : (n : ℕ) → n < 16 → digit_value (digit_code n) ≡ n
digit_value-digit_code n small = ground arith

pub unhex-hex_codes : (bytes : List ℕ) → AreBytes bytes → unhex (hex_codes bytes) ≡ bytes
unhex-hex_codes [] small = refl
unhex-hex_codes (byte ∷ bytes) (small, rest) =
    rw
      (
        digit_value-digit_code (byte / 16) (omega arith),
        digit_value-digit_code (byte % 16) (omega arith),
        unhex-hex_codes bytes rest,
      )
      (ap (λ b. b ∷ bytes) (omega arith))

-- What `hex` renders is read back, two digits to a byte.
pub unhex-hex : (bytes : List ℕ) → AreBytes bytes → unhex (codes (hex bytes)) ≡ bytes
unhex-hex bytes small = rw (codes-hex bytes small) (unhex-hex_codes bytes small)
