-- ===== src/Error/Tests.antt =====
-- A digest as text.
use Prim.Native.String.{String}
use rociadb_core_sdk_rust.Prelude.{◌≡◌, refl, [], ◌∷◌}
use rociadb_core_sdk_rust.Error.{hex}

abbrev three_bytes_in_hex : String
three_bytes_in_hex = "00ff1a"

hex_of_three : hex (0 ∷ 255 ∷ 26 ∷ []) ≡ three_bytes_in_hex
unfolding hex
hex_of_three = refl
