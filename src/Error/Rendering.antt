-- ===== src/Error/Rendering.antt =====
-- What `Display` prints of an error (the `#[error(..)]` lines of `src/error.rs`), and of the messages
-- that the client makes itself.
--
-- What other libraries print, of a status and of a cause, and decimal numbers are arguments.
mod Tests
use Prim.Native.String.{String, ◌++◌}
use rociadb_core_sdk_rust.Prelude.{ℕ, List}
use rociadb_core_sdk_rust.Error.{
  Message, text, file_too_large, more_than_declared, fewer_than_declared, concurrent_refresh_failed,
  Error, Status, Source, status_error, config, connection, auth, encode, decode, io, validation,
  checksum_mismatch, size_mismatch, hex, source_suffix,
}

pub record Printers : Type 0 where
  pub status : Status → String
  pub source : Source → String
  pub decimal : ℕ → String

module _ (print : Printers) where
  abbrev pub file_too_large_text : ℕ → ℕ → String
  file_too_large_text size limit =
      "file is "
      ++ (print.decimal size
          ++ (" bytes, which exceeds the client's "
              ++ (print.decimal limit ++ "-byte max_file_bytes limit")))

  abbrev pub checksum_mismatch_text : List ℕ → List ℕ → String
  checksum_mismatch_text expected actual =
      "downloaded file failed SHA-256 verification: the server reported "
      ++ (hex expected ++ (" but the bytes received hash to " ++ hex actual))

  abbrev pub size_mismatch_text : ℕ → ℕ → String
  size_mismatch_text expected actual =
      "downloaded file is "
      ++ (print.decimal actual ++ (" bytes but the server reported " ++ print.decimal expected))

  abbrev pub more_than_declared_text : ℕ → String
  more_than_declared_text size =
      "upload_file_chunked received more data than size_bytes ("
      ++ (print.decimal size ++ " bytes) declared")

  abbrev pub fewer_than_declared_text : ℕ → ℕ → String
  fewer_than_declared_text written size =
      "upload_file_chunked sent "
      ++ (print.decimal written ++ (" bytes but size_bytes declared " ++ print.decimal size))

  unfoldable mutual
    pub display_message : Message → String
    display_message (text t) = t
    display_message (file_too_large size limit) = file_too_large_text size limit
    display_message (more_than_declared size) = more_than_declared_text size
    display_message (fewer_than_declared written size) = fewer_than_declared_text written size
    display_message (concurrent_refresh_failed e) =
        "a concurrent token refresh failed, so this one did not repeat it: " ++ display e

    pub display : Error → String
    display (status_error operation status) = operation ++ (": " ++ print.status status)
    display (config message cause) = display_message message ++ source_suffix print.source cause
    display (connection message cause) = display_message message ++ source_suffix print.source cause
    display (auth message cause) = display_message message ++ source_suffix print.source cause
    display (encode context cause) =
        "failed to encode " ++ (context ++ (": " ++ print.source cause))
    display (decode context cause) =
        "failed to decode " ++ (context ++ (": " ++ print.source cause))
    display (io context cause) = context ++ (" failed: " ++ print.source cause)
    display (validation message) = display_message message
    display (checksum_mismatch expected actual) = checksum_mismatch_text expected actual
    display (size_mismatch expected actual) = size_mismatch_text expected actual
