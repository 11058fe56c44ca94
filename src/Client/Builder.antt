-- ===== src/Client/Builder.antt =====
-- The builder of `src/lib.rs`: its setters, the checks of its settings, and `build`.
--
-- The transport, the environment, the HTTP client and the token manager's start are arguments. A
-- channel, a TLS configuration and a certificate are not looked into: numbers tell them apart.
pub mod Checks
pub mod Order
mod Tests
use Prim.Native.Char.{code as char_code}
use Prim.Native.String.{String, [], ◌∷◌}
use rociadb_core_sdk_rust.Prelude.{
  ℕ, Bool, true, false, not, Option, none, some, ◌==◌, if◌then◌else◌, unwrap_or, Result, ◌>>=◌,
  Action, ok, err,
}
use rociadb_core_sdk_rust.Duration.{Duration, from_secs}
use rociadb_core_sdk_rust.Error.{
  Error, Source, config_message, config_context, connection_context, auth_context, auth, text,
}
use rociadb_core_sdk_rust.Client.{
  resolve_connect_timeout, resolve_request_timeout, resolve_max_file_bytes,
}

pub data BuilderAuthConfig : Type 0 where
  enabled : Option String → Option String → Option String → BuilderAuthConfig
  disabled : BuilderAuthConfig

-- The fields carry names of their own, since the setters have the source's.
pub record RociaDbBuilder : Type 0 where
  pub upstream_host : Option String
  pub auth_config : BuilderAuthConfig
  pub connect_limit : Option Duration
  pub request_limit : Option Duration
  pub tls : Option ℕ
  pub keep_alive : Option (Duration × Duration)
  pub file_limit : Option ℕ
  pub message_limit : Option ℕ

abbrev pub auth_token_url_env : String
auth_token_url_env = "AUTH_TOKEN_URL"

abbrev pub auth_client_id_env : String
auth_client_id_env = "AUTH_CLIENT_ID"

abbrev pub auth_client_secret_env : String
auth_client_secret_env = "AUTH_CLIENT_SECRET"

abbrev pub default_builder : RociaDbBuilder
default_builder = record {
  upstream_host = some "http://127.0.0.1:50051";
  auth_config = enabled none none none;
  connect_limit = none;
  request_limit = none;
  tls = none;
  keep_alive = none;
  file_limit = none;
  message_limit = none;
}

abbrev pub new_builder : RociaDbBuilder
new_builder = default_builder

abbrev pub host : String → RociaDbBuilder → RociaDbBuilder
host h b = record b { upstream_host = some h }

abbrev pub auth_client_credentials : String → String → String → RociaDbBuilder → RociaDbBuilder
auth_client_credentials url id secret b = record b {
  auth_config = enabled (some url) (some id) (some secret);
}

abbrev pub disable_auth : RociaDbBuilder → RociaDbBuilder
disable_auth b = record b { auth_config = disabled }

abbrev pub connect_timeout : Duration → RociaDbBuilder → RociaDbBuilder
connect_timeout t b = record b { connect_limit = some t }

abbrev pub request_timeout : Duration → RociaDbBuilder → RociaDbBuilder
request_timeout t b = record b { request_limit = some t }

abbrev pub tls_config : ℕ → RociaDbBuilder → RociaDbBuilder
tls_config t b = record b { tls = some t }

abbrev pub http2_keep_alive : Duration → Duration → RociaDbBuilder → RociaDbBuilder
http2_keep_alive interval timeout b = record b { keep_alive = some (interval, timeout) }

abbrev pub max_decoding_message_size : ℕ → RociaDbBuilder → RociaDbBuilder
max_decoding_message_size n b = record b { message_limit = some n }

abbrev pub max_file_bytes : ℕ → RociaDbBuilder → RociaDbBuilder
max_file_bytes n b = record b { file_limit = some n }

-- What `build` takes from other libraries. `M` is the token manager.
pub record Platform (E M : Type 0) : Type 0 where
  pub parse_uri : String → Result Source (String × Option String)
  pub from_shared : String → Result Source (Unit {0})
  pub configure_tls : Option ℕ → Result Source (Unit {0})
  pub connect : String → Duration → Option (Duration × Duration) → Action E (Result Source ℕ)
  pub env_var : String → Option String
  pub http_client : Duration → Result Source (Unit {0})
  pub start_manager : String → String → String → Action E (Result Source M)

pub record BuiltClient (M : Type 0) : Type 0 where
  pub channel : ℕ
  pub client_host : String
  pub deadline : Option Duration
  pub file_ceiling : ℕ
  pub manager : Option M
  pub decoding_limit : Option ℕ

-- `host.contains('#')`; `#` is 35.
abbrev pub has_fragment : String → Bool
has_fragment [] = false
has_fragment (c ∷ cs) = let rest = has_fragment cs in if char_code c == 35 then true else rest

abbrev pub is_root : String → Bool
is_root [] = true
is_root (c ∷ []) = char_code c == 47
is_root _ = false

abbrev pub or_else : Option String → Option String → Option String
or_else none b = b
or_else (some a) b = some a

abbrev pub required : Option String → String → Result Error String
required none m = err (config_message m)
required (some a) m = ok a

module _ {E M : Type 0} (platform : Platform E M) where
  abbrev pub no_query : Option String → Result Error (Unit {0})
  no_query none = ok tt
  no_query (some q) =
      err (config_message "RociaDB host must contain only a hostname and port, got query")

  unfoldable pub validate_host_path : String → Result Error (Unit {0})
  validate_host_path h =
      if has_fragment h
      then err (config_message "RociaDB host must contain only a hostname and port, got a fragment")
      else config_context "invalid upstream host" (platform.parse_uri h) >>= λ uri.
          if not (is_root uri.0)
          then err (config_message "RociaDB host must contain only a hostname and port, got path")
          else no_query uri.1

  -- The manager that authentication asks for, if any.
  unfoldable pub start_auth : BuilderAuthConfig → Duration → Action E (Result Error (Option M))
  start_auth disabled connect_limit e = (ok none, e)
  start_auth (enabled url id secret) connect_limit e =
      let settings : Result Error (String × String × String) =
        required (or_else url (platform.env_var auth_token_url_env))
          "missing auth token url (set AUTH_TOKEN_URL)"
        >>= λ u.
            required (or_else id (platform.env_var auth_client_id_env))
              "missing auth client id (set AUTH_CLIENT_ID)"
            >>= λ i.
                required (or_else secret (platform.env_var auth_client_secret_env))
                  "missing auth client secret (set AUTH_CLIENT_SECRET)"
                >>= λ s.
                    config_context "failed to build the OAuth2 HTTP client"
                      (platform.http_client connect_limit)
                    >>= λ u'. ok (u, i, s) in
      elim settings [
        | err x ↦ (err x, e)
        | ok (u, i, s) ↦
            let (started, e') = platform.start_manager u i s e in
            (auth_context "failed to initialize token manager" started >>= λ m. ok (some m), e')
      ]

  unfoldable pub build_on_channel :
      RociaDbBuilder → ℕ → String → Duration → ℕ → Action E (Result Error (BuiltClient M))
  build_on_channel b channel h connect_limit ceiling e =
      elim (resolve_request_timeout b.request_limit) [
        | err x ↦ (err x, e)
        | ok deadline ↦
            let (started, e') = start_auth b.auth_config connect_limit e in
            (
              started >>= λ m. ok (record {
                channel = channel;
                client_host = h;
                deadline = deadline;
                file_ceiling = ceiling;
                manager = m;
                decoding_limit = b.message_limit;
              }),
              e',
            )
      ]

  -- What `build` checks before it opens a connection.
  unfoldable pub settle : RociaDbBuilder → Result Error (String × Duration × ℕ)
  settle b = required b.upstream_host "missing upstream host" >>= λ h. validate_host_path h >>= λ u.
      resolve_connect_timeout b.connect_limit >>= λ limit.
      resolve_max_file_bytes b.file_limit >>= λ ceiling.
      config_context "invalid upstream host" (platform.from_shared h) >>= λ u'.
      config_context "failed to configure TLS" (platform.configure_tls b.tls) >>= λ u''.
      ok (h, limit, ceiling)

  unfoldable pub build : RociaDbBuilder → Action E (Result Error (BuiltClient M))
  build b e = elim (settle b) [
    | err x ↦ (err x, e)
    | ok (h, limit, ceiling) ↦
        let (connected, e') = platform.connect h limit b.keep_alive e in
        elim (connection_context "failed to connect to upstream" connected) [
          | err x ↦ (err x, e')
          | ok channel ↦ build_on_channel b channel h limit ceiling e'
        ]
  ]

  -- On a channel of the caller's, the host is only a label.
  unfoldable pub build_with_channel : RociaDbBuilder → ℕ → Action E (Result Error (BuiltClient M))
  build_with_channel b channel e =
      let h : String = unwrap_or b.upstream_host "<caller-supplied channel>" in
      let settled : Result Error (Duration × ℕ) =
        resolve_connect_timeout b.connect_limit >>= λ limit.
        resolve_max_file_bytes b.file_limit >>= λ ceiling. ok (limit, ceiling) in
      elim settled [
        | err x ↦ (err x, e)
        | ok (limit, ceiling) ↦ build_on_channel b channel h limit ceiling e
      ]
