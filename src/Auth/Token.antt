-- ===== src/Auth/Token.antt =====
-- The token request of `src/auth.rs` and the decoding of its answer.
--
-- The HTTP client, its JSON decoder and the standard library's number parsers are arguments, and
-- a floating-point number is a member of `Floats.Float`. `redact_token_url` takes the URL out of an
-- error that the HTTP client makes.
mod Tests
use Prim.Native.String.{String}
use rociadb_core_sdk_rust.Prelude.Effect.{◌>>=◌, lift}
use rociadb_core_sdk_rust.Prelude.{
  ℕ, Bool, ◌&&◌, Option, none, some, if◌then◌else◌, unwrap_or, Result, map_err, Action, ok, err,
}
use rociadb_core_sdk_rust.Error.{Error, Source, auth_context}
use rociadb_core_sdk_rust.Auth.{TokenResponse}

abbrev pub assumed_expires_in_secs : ℕ
assumed_expires_in_secs = 300

abbrev pub default_token_type : String
default_token_type = "Bearer"

-- `f64`, and what the standard library does with texts and numbers.
pub record Floats : Type 1 where
  pub Float : Type 0
  pub is_finite : Float → Bool
  pub at_least_zero : Float → Bool
  pub as_u64 : Float → ℕ
  pub trim : String → String
  pub parse_u64 : String → Option ℕ
  pub parse_f64 : String → Option Float

module _ (floats : Floats) where
  pub data RawExpiresIn : Type 0 where
    seconds : ℕ → RawExpiresIn
    fractional : floats.Float → RawExpiresIn
    written : String → RawExpiresIn

  pub record RawTokenResponse : Type 0 where
    pub access_token : String
    pub expires_in : Option RawExpiresIn
    pub token_type : Option String

  -- `then_some` of a cast that saturates.
  abbrev pub truncate_seconds : floats.Float → Option ℕ
  truncate_seconds s =
      if floats.is_finite s && floats.at_least_zero s then some (floats.as_u64 s) else none

  abbrev pub truncated : Option floats.Float → Option ℕ
  truncated none = none
  truncated (some s) = truncate_seconds s

  -- `RawExpiresIn::seconds`.
  unfoldable pub raw_seconds : RawExpiresIn → Option ℕ
  raw_seconds (seconds s) = some s
  raw_seconds (fractional s) = truncate_seconds s
  raw_seconds (written text) =
      let trimmed = floats.trim text in
      elim (floats.parse_u64 trimmed) [
        | some s ↦ some s
        | none ↦ truncated (floats.parse_f64 trimmed)
      ]

  -- `RawExpiresIn::rendered`, for the text of an error; `decimal` and `float_text` print numbers.
  unfoldable pub rendered : (ℕ → String) → (floats.Float → String) → RawExpiresIn → String
  rendered decimal float_text (seconds s) = decimal s
  rendered decimal float_text (fractional s) = float_text s
  rendered decimal float_text (written text) = text

  -- `TokenResponse::deserialize`; `invalid` is the error of a value that is no number of seconds.
  unfoldable pub token_from_raw :
      (RawExpiresIn → Source) → RawTokenResponse → Result Source TokenResponse
  token_from_raw invalid raw =
      let token : ℕ → TokenResponse = λ expires_in. record {
        access_token = raw.access_token;
        expires_in = expires_in;
        token_type = unwrap_or raw.token_type default_token_type;
      } in
      elim raw.expires_in [
        | none ↦ ok (token assumed_expires_in_secs)
        | some given ↦ elim (raw_seconds given) [
          | none ↦ err (invalid given)
          | some s ↦ ok (token s)
        ]
      ]

-- The form that is posted.
pub record TokenForm : Type 0 where
  pub grant_type : String
  pub client_id : String
  pub client_secret : String

-- `reqwest`: a request's response, its status check, and the decoder of its body.
pub record Http (E Response : Type 0) : Type 0 where
  pub post : String → TokenForm → Action E (Result Source Response)
  pub error_for_status : Response → Result Source Response
  pub json : Response → Action E (Result Source TokenResponse)

module _ {E Response : Type 0} (http : Http E Response) (redact_token_url : Source → Source) where
  unfoldable pub fetch_token : String → String → String → Action E (Result Error TokenResponse)
  fetch_token token_url client_id client_secret =
      (λ e.
        let (sent, e') =
          http.post token_url
            (record {
              grant_type = "client_credentials";
              client_id = client_id;
              client_secret = client_secret;
            })
            e in
        (auth_context "token request failed" (map_err redact_token_url sent), e'))
      >>= λ response.
          lift (
            auth_context "token endpoint returned error"
              (map_err redact_token_url (http.error_for_status response)))
          >>= λ checked e.
              let (read, e') = http.json checked e in
              (auth_context "failed to parse token response" (map_err redact_token_url read), e')
