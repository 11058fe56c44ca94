-- ===== src/Client/Builder/Tests.antt =====
-- Runs of the builder, and its theorems at concrete inputs.
use Prim.Native.String.{String}
use rociadb_core_sdk_rust.Client.Builder.Checks.{Checked}
use rociadb_core_sdk_rust.Prelude.{ℕ, ◌+◌, ◌≡◌, refl, none, some, ok, err}
use rociadb_core_sdk_rust.Duration.{Duration, from_secs}
use rociadb_core_sdk_rust.Error.{config_message}
use rociadb_core_sdk_rust.Client.{default_max_file_bytes}
use rociadb_core_sdk_rust.Client.Builder.{
  RociaDbBuilder, default_builder, host, disable_auth, request_timeout, Platform, BuiltClient,
  validate_host_path, start_auth, build_on_channel, settle, build,
}
use rociadb_core_sdk_rust.Client.Builder.Order.{Built, build_ok}

-- A world that counts the connections; every host has the path `/` and no query.
abbrev platform : Platform ℕ (Unit {0})
platform = record {
  parse_uri = λ h. ok ("/", none);
  from_shared = λ h. ok tt;
  configure_tls = λ t. ok tt;
  connect = λ h limit alive e. (ok 1, e + 1);
  env_var = λ name. none;
  http_client = λ t. ok tt;
  start_manager = λ url id secret e. (ok tt, e);
}

abbrev open_builder : RociaDbBuilder
open_builder = request_timeout (from_secs 3) (disable_auth default_builder)

abbrev hasty_builder : RociaDbBuilder
hasty_builder = request_timeout 0 (disable_auth default_builder)

abbrev built : BuiltClient (Unit {0})
built = record {
  channel = 1;
  client_host = "http://127.0.0.1:50051";
  deadline = some (from_secs 3);
  file_ceiling = default_max_file_bytes;
  manager = none;
  decoding_limit = none;
}

with_fragment : (build platform (host "http://127.0.0.1:50051#note" default_builder) 0).1 ≡ 0
unfolding build settle validate_host_path
with_fragment = refl

build-run : (build platform open_builder 0).0 ≡ ok built
unfolding build settle validate_host_path build_on_channel start_auth
build-run = refl

build_ok_example :
    (h : String) × (limit : Duration) × (ceiling : ℕ) × (channel : ℕ) × Checked platform
      open_builder h limit ceiling
    × ((platform.connect h limit open_builder.keep_alive 0).0 ≡ ok channel)
    × Built platform open_builder channel h ceiling built
build_ok_example = build_ok platform open_builder 0 built build-run

-- A zero request timeout is found after the connection was opened.
zero_request_timeout :
    build platform hasty_builder 0
    ≡ (err (config_message "request timeout must be greater than zero"), 1)
unfolding build settle validate_host_path build_on_channel
zero_request_timeout = refl
