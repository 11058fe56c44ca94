-- ===== src/Error/Rendering/Tests.antt =====
-- What a few errors print.
use Prim.Native.String.{String}
use rociadb_core_sdk_rust.Prelude.{ℕ, ◌≡◌, refl, none, some, List, [], ◌∷◌, arith}
use rociadb_core_sdk_rust.Error.{
  Error, auth, text, concurrent_refresh_failed, checksum_mismatch, hex,
}
use rociadb_core_sdk_rust.Error.Digests.{checksum_mismatch_told_apart}
use rociadb_core_sdk_rust.Error.Rendering.{Printers, display}

abbrev plain : Printers
plain = record { status = λ s. "status"; source = λ s. "cause"; decimal = λ n. "7" }

abbrev refused : Error
refused = auth (text "token endpoint returned error") (some 1)

abbrev shared : String
shared =
    "a concurrent token refresh failed, so this one did not repeat it: token endpoint returned error: cause"

of_shared : display plain (auth (concurrent_refresh_failed refused) none) ≡ shared
unfolding display
of_shared = refl

abbrev unequal : String
unequal =
    "downloaded file failed SHA-256 verification: the server reported 00 but the bytes received hash to ff"

of_mismatch : display plain (checksum_mismatch (0 ∷ []) (255 ∷ [])) ≡ unequal
unfolding display hex
of_mismatch = refl

checksum_mismatch_told_apart_example :
    (◌≡◌ {A = List ℕ} (0 ∷ []) (0 ∷ [])) × (◌≡◌ {A = List ℕ} (255 ∷ []) (255 ∷ []))
checksum_mismatch_told_apart_example =
    checksum_mismatch_told_apart plain (0 ∷ []) (255 ∷ []) (0 ∷ []) (255 ∷ []) (omega arith)
      (omega arith) (omega arith) (omega arith) refl refl
