-- ===== src/Auth/Token/Tests.antt =====
-- Token answers in the forms that identity providers send, and a request for a token.
use package.text.Mathlib.Text.{◌==◌}
use rociadb_core_sdk_rust.Prelude.{
  ℕ, ◌+◌, ◌/◌, ◌≡◌, refl, Bool, true, false, not, Option, none, some, if◌then◌else◌, ok, err,
}
use rociadb_core_sdk_rust.Error.{Source, auth, text}
use rociadb_core_sdk_rust.Auth.{TokenResponse}
use rociadb_core_sdk_rust.Auth.Token.{
  Floats, RawExpiresIn, fractional, written, RawTokenResponse, raw_seconds, token_from_raw, Http,
  fetch_token,
}

-- A float is a sign and a number of tenths; one text is a number and one is a fraction.
abbrev tenths : Floats
tenths = record {
  Float = Bool × ℕ;
  is_finite = λ x. true;
  at_least_zero = λ x. not x.0;
  as_u64 = λ x. x.1 / 10;
  trim = λ t. t;
  parse_u64 = λ t. if t == "3600" then some 3600 else none;
  parse_f64 = λ t. if t == "59.9" then some (false, 599) else none;
}

abbrev invalid : RawExpiresIn tenths → Source
invalid given = 9

abbrev answer : Option (RawExpiresIn tenths) → RawTokenResponse tenths
answer given = record { access_token = "abc"; expires_in = given; token_type = none }

abbrev token : ℕ → TokenResponse
token s = record { access_token = "abc"; expires_in = s; token_type = "Bearer" }

from_text : token_from_raw tenths invalid (answer (some (written "3600"))) ≡ ok (token 3600)
unfolding token_from_raw raw_seconds
from_text = refl

from_fraction : token_from_raw tenths invalid (answer (some (written "59.9"))) ≡ ok (token 59)
unfolding token_from_raw raw_seconds
from_fraction = refl

from_negative : token_from_raw tenths invalid (answer (some (fractional (true, 10)))) ≡ err 9
unfolding token_from_raw raw_seconds
from_negative = refl

from_nothing : token_from_raw tenths invalid (answer none) ≡ ok (token 300)
unfolding token_from_raw raw_seconds
from_nothing = refl

-- A token endpoint that answers with an error status.
abbrev refusing : Http ℕ ℕ
refusing = record {
  post = λ url form e. (ok 401, e + 1);
  error_for_status = λ response. err response;
  json = λ response e. (ok (token 1), e);
}

refused :
    fetch_token refusing (λ e. e) "https://idp" "id" "secret" 0
    ≡ (err (auth (text "token endpoint returned error") (some 401)), 1)
unfolding fetch_token
refused = refl
