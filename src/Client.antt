-- ===== src/Client.antt =====
-- `src/lib.rs`: the client, its checks of the caller's settings, the page request, and the path
-- that every unary call takes (`unary` to `attempt`).
--
-- The world `W` is an argument: it holds what the upstream, the token manager and the runtime's
-- timer change. `http::Uri`'s parser is an argument too. Logging is left out.
pub mod Call
pub mod Builder
pub mod Service
pub mod Sends
pub mod Contract
pub mod Session
pub mod Redaction
mod Tests
use Prim.Native.String.{String}
use rociadb_core_sdk_rust.Prelude.{
  ℕ, ◌*◌, ◌/◌, min, Bool, true, false, not, Option, none, some, List, [], ◌∷◌, ◌==◌, if◌then◌else◌,
  unwrap_or, max_u64, Result, Action, ok, err,
}
use rociadb_core_sdk_rust.Duration.{Duration, from_secs}
use rociadb_core_sdk_rust.Error.{
  client_timeout_expired, Error, Message, Status, SourceError, Source, text, validation, config,
  config_message, config_context, status_error, deadline_exceeded, is_unauthenticated,
  status_context,
}

abbrev pub default_page_size : ℕ
default_page_size = 20

abbrev pub default_connect_timeout : Duration
default_connect_timeout = from_secs 10

-- 5 GiB.
abbrev pub default_max_file_bytes : ℕ
default_max_file_bytes = 5 * 1024 * 1024 * 1024

abbrev pub streaming_token_refresh_margin : Duration
streaming_token_refresh_margin = from_secs 5

pub record Page (T : Type 0) : Type 0 where
  pub items : List T
  pub next_cursor : Option String

pub record WriteOptions : Type 0 where
  pub request_id : Option String

abbrev pub no_options : WriteOptions
no_options = record { request_id = none }

abbrev pub with_request_id : String → WriteOptions → WriteOptions
with_request_id id o = record o { request_id = some id }

pub record PageRequest : Type 0 where
  pub limit : Option ℕ
  pub cursor : String

abbrev pub is_zero : ℕ → Bool
is_zero n = n == 0

abbrev pub is_some_and : {A : Type 0} → Option A → (A → Bool) → Bool
is_some_and none p = false
is_some_and (some a) p = p a

unfoldable pub page_request : Option ℕ → Option String → Result Error (Option PageRequest)
page_request limit cursor =
    if is_some_and limit is_zero
    then err (validation (text "page limit must be greater than zero"))
    else ok (
        some (record {
          limit = some (unwrap_or limit default_page_size);
          cursor = unwrap_or cursor "";
        }))

-- `!value.is_empty()).then_some(value)`.
abbrev pub non_empty : String → Option String
non_empty String.[] = none
non_empty value = some value

abbrev pub resolve_connect_timeout : Option Duration → Result Error Duration
resolve_connect_timeout explicit =
    let connect_timeout = unwrap_or explicit default_connect_timeout in
    if is_zero connect_timeout
    then err (config_message "connect timeout must be greater than zero")
    else ok connect_timeout

abbrev pub resolve_request_timeout : Option Duration → Result Error (Option Duration)
resolve_request_timeout explicit =
    if is_some_and explicit is_zero
    then err (config_message "request timeout must be greater than zero")
    else ok explicit

abbrev pub resolve_max_file_bytes : Option ℕ → Result Error ℕ
resolve_max_file_bytes explicit =
    let max_file_bytes = unwrap_or explicit default_max_file_bytes in
    if is_zero max_file_bytes
    then err (config_message "max file bytes must be greater than zero")
    else ok max_file_bytes

-- The error of an expired deadline; its milliseconds saturate in a `u64`.
abbrev pub deadline_error : String → Duration → Error
deadline_error operation timeout = status_error operation (record {
  code = deadline_exceeded;
  message = client_timeout_expired (min (timeout / 1_000_000) max_u64);
  reason_metadata = none;
  sources = [];
})

abbrev pub any_timeout_expired : List SourceError → Bool
any_timeout_expired [] = false
any_timeout_expired (error ∷ sources) =
    if error.is_timeout_expired then true else any_timeout_expired sources

-- The walk along the chain of the status's sources.
abbrev pub is_local_deadline_expired : Status → Bool
is_local_deadline_expired s = any_timeout_expired s.sources

-- A `tonic::Request`: its message, and the `grpc-timeout` that it carries.
pub record Request (Req : Type 0) : Type 0 where
  pub message : Req
  pub timeout : Option Duration

-- What the client asks of the token manager (`src/auth.rs`).
pub record Manager (W : Type 0) : Type 0 where
  pub refresh_now : Action W (Result Error (Unit {0}))
  pub ensure_fresh : Duration → Action W (Result Error (Unit {0}))
  pub request_refresh : W → W

pub record RociaDbClient (W : Type 0) : Type 0 where
  pub host : String
  pub request_timeout : Option Duration
  pub max_file_bytes : ℕ
  pub token_manager : Option (Manager W)

module _ {W : Type 0} (client : RociaDbClient W) where
  abbrev pub refresh_auth_token : Action W (Result Error (Unit {0}))
  refresh_auth_token w = elim client.token_manager [ some m ↦ m.refresh_now w | none ↦ (ok tt, w) ]

  abbrev pub invalidate_auth_token : W → W
  invalidate_auth_token w = elim client.token_manager [ some m ↦ m.request_refresh w | none ↦ w ]

  -- Whether the call is to be made again.
  unfoldable pub refresh_for_replay : Error → Action W Bool
  refresh_for_replay error w =
      let refreshed : Bool × W = elim client.token_manager [
        | none ↦ (false, w)
        | some m ↦
            let (outcome, w') = m.refresh_now w in
            (elim outcome [ ok _ ↦ true | err _ ↦ false ], w')
      ] in
      if not (is_unauthenticated error) then (false, w) else refreshed

  unfoldable pub refresh_token_before_stream : W → W
  refresh_token_before_stream w = elim client.token_manager [
    | none ↦ w
    | some m ↦ (m.ensure_fresh streaming_token_refresh_margin w).1
  ]

  -- A call of one RPC method; `deadline` is `tokio::time::timeout` around it, which answers `none`
  -- when the time is over.
  module _ {Req Resp : Type 0} (call : Request Req → Action W (Result Status Resp))
      (deadline : Duration → Request Req → Action W (Option (Result Status Resp)))
      (operation : String) where
    -- What is made of the outcome of a call under a deadline.
    abbrev pub in_time : Duration → Option (Result Status Resp) → Result Error Resp
    in_time timeout none = err (deadline_error operation timeout)
    in_time timeout (some (err status)) =
        if is_local_deadline_expired status
        then err (deadline_error operation timeout)
        else status_context operation (err status)
    in_time timeout (some (ok response)) = ok response

    unfoldable pub attempt : Req → Option Duration → Action W (Result Error Resp)
    attempt message none w =
        let (outcome, w') = call (record { message = message; timeout = none }) w in
        (status_context operation outcome, w')
    attempt message (some timeout) w =
        let (outcome, w') =
          deadline timeout (record { message = message; timeout = some timeout }) w in
        (in_time timeout outcome, w')

    -- The message that is kept for a replay, exactly if there is a token manager.
    unfoldable pub kept_for_replay : Req → Option Req
    kept_for_replay message = elim client.token_manager [ none ↦ none | some m ↦ some message ]

    unfoldable pub attempt_with_replay : Req → Option Duration → Action W (Result Error Resp)
    attempt_with_replay message timeout w =
        let (answer, w') = attempt message timeout w in
        elim answer [
          | ok response ↦ (ok response, w')
          | err error ↦ elim (kept_for_replay message) [
            | none ↦ (err error, w')
            | some replay ↦
                let (again, w'') = refresh_for_replay error w' in
                let replayed = attempt replay timeout w'' in
                if not again then (err error, w'') else replayed
          ]
        ]

    abbrev pub unary : Req → Action W (Result Error Resp)
    unary message = attempt_with_replay message client.request_timeout

    -- No deadline: it would cover the answer's first message only.
    abbrev pub server_streaming : Req → Action W (Result Error Resp)
    server_streaming message = attempt_with_replay message none
