-- ===== src/Error.antt =====
-- `src/error.rs`: the client's error type, its predicates and the conversions into it.
--
-- A message is a constructor of `Message` that names the text's template and carries what the
-- template prints; Error/Rendering is what `Display` makes of it. The
-- sources of foreign types (`tonic::Status`, `serde_json::Error`, `std::io::Error`, boxed errors)
-- are records and numbers that stand for what the code reads of them.
pub mod Predicates
pub mod Rendering
pub mod Hex
pub mod Digests
mod Tests
use Prim.Native.String.{String, ◌++◌}
use rociadb_core_sdk_rust.Prelude.{
  ℕ, zero, suc, ◌/◌, ◌%◌, Bool, false, Option, none, some, List, [], ◌∷◌, ◌==◌, unwrap_or, Result,
  map_err,
}

-- `tonic::Code`.
pub data Code : Type 0 where
  success cancelled unknown invalid_argument deadline_exceeded not_found : Code
  already_exists permission_denied resource_exhausted failed_precondition aborted : Code
  out_of_range unimplemented internal unavailable data_loss unauthenticated : Code

-- Of each error in the chain behind a status, whether it is a `tonic::TimeoutExpired`.
pub record SourceError : Type 0 where
  pub is_timeout_expired : Bool

-- A status's text: the server's, or the one that the client writes when a request's deadline of so
-- many milliseconds expires.
pub data StatusText : Type 0 where
  sent : String → StatusText
  client_timeout_expired : ℕ → StatusText

-- What the code reads of a `tonic::Status`: its code, its text, the ASCII `reason` metadata and
-- the chain of its sources.
pub record Status : Type 0 where
  pub code : Code
  pub message : StatusText
  pub reason_metadata : Option String
  pub sources : List SourceError

-- A foreign error kept as the source of one of ours, by a number that tells it apart.
abbrev pub Source : Type 0
Source = ℕ

mutual
  -- The texts of the `Validation`, `Config` and `Auth` errors that the client makes itself. An
  -- error in a text stands for what `Display` prints of it.
  pub data Message : Type 0 where
    text : String → Message
    file_too_large : ℕ → ℕ → Message
    more_than_declared : ℕ → Message
    fewer_than_declared : ℕ → ℕ → Message
    concurrent_refresh_failed : Error → Message

  pub data Error : Type 0 where
    status_error : String → Status → Error
    config : Message → Option Source → Error
    connection : Message → Option Source → Error
    auth : Message → Option Source → Error
    encode : String → Source → Error
    decode : String → Source → Error
    io : String → Source → Error
    validation : Message → Error
    checksum_mismatch : List ℕ → List ℕ → Error
    size_mismatch : ℕ → ℕ → Error

-- A code's number in the gRPC protocol, by which codes are compared.
abbrev pub code_number : Code → ℕ
code_number success = 0
code_number cancelled = 1
code_number unknown = 2
code_number invalid_argument = 3
code_number deadline_exceeded = 4
code_number not_found = 5
code_number already_exists = 6
code_number permission_denied = 7
code_number resource_exhausted = 8
code_number failed_precondition = 9
code_number aborted = 10
code_number out_of_range = 11
code_number unimplemented = 12
code_number internal = 13
code_number unavailable = 14
code_number data_loss = 15
code_number unauthenticated = 16

-- `code == Some(c)`.
abbrev pub same_code : Option Code → Code → Bool
same_code none c = false
same_code (some d) c = code_number d == code_number c

unfoldable pub code : Error → Option Code
code (status_error operation s) = some s.code
code _ = none

unfoldable pub reason : Error → Option String
reason (status_error operation s) = s.reason_metadata
reason _ = none

unfoldable pub status : Error → Option Status
status (status_error operation s) = some s
status _ = none

unfoldable pub is_unauthenticated : Error → Bool
unfolding code
is_unauthenticated e = same_code (code e) unauthenticated

unfoldable pub is_permission_denied : Error → Bool
unfolding code
is_permission_denied e = same_code (code e) permission_denied

unfoldable pub is_already_exists : Error → Bool
unfolding code
is_already_exists e = same_code (code e) already_exists

unfoldable pub is_aborted : Error → Bool
unfolding code
is_aborted e = same_code (code e) aborted

unfoldable pub is_not_found : Error → Bool
unfolding code
is_not_found e = same_code (code e) not_found

unfoldable pub is_invalid_argument : Error → Bool
unfolding code
is_invalid_argument e = same_code (code e) invalid_argument

abbrev pub config_message : String → Error
config_message m = config (text m) none

-- The extension traits that give a foreign failure its context.
abbrev pub status_context : {T : Type 0} → String → Result Status T → Result Error T
status_context operation = map_err (status_error operation)

abbrev pub config_context : {T : Type 0} → String → Result Source T → Result Error T
config_context m = map_err (λ s. config (text m) (some s))

abbrev pub connection_context : {T : Type 0} → String → Result Source T → Result Error T
connection_context m = map_err (λ s. connection (text m) (some s))

abbrev pub auth_context : {T : Type 0} → String → Result Source T → Result Error T
auth_context m = map_err (λ s. auth (text m) (some s))

abbrev pub encode_context : {T : Type 0} → String → Result Source T → Result Error T
encode_context c = map_err (encode c)

abbrev pub decode_context : {T : Type 0} → String → Result Source T → Result Error T
decode_context c = map_err (decode c)

abbrev hex_digits : List String
hex_digits =
    "0" ∷ "1" ∷ "2" ∷ "3" ∷ "4" ∷ "5" ∷ "6" ∷ "7" ∷ "8" ∷ "9" ∷ "a" ∷ "b" ∷ "c" ∷ "d" ∷ "e" ∷ "f"
    ∷ []

abbrev nth : ℕ → List String → Option String
nth n [] = none
nth zero (x ∷ xs) = some x
nth (suc n) (x ∷ xs) = nth n xs

-- A hexadecimal digit as its lower-case letter.
abbrev pub hex_digit : ℕ → String
hex_digit n = unwrap_or (nth n hex_digits) "f"

-- `{byte:02x}` of each byte.
unfoldable pub hex : List ℕ → String
hex [] = ""
hex (byte ∷ bytes) = hex_digit (byte / 16) ++ (hex_digit (byte % 16) ++ hex bytes)

-- What a cause prints is an argument.
abbrev pub source_suffix : (Source → String) → Option Source → String
source_suffix printed none = ""
source_suffix printed (some source) = ": " ++ printed source
