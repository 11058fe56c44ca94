-- ===== src/Client/Session/Tests.antt =====
-- A call whose token is no longer good, and the theorem at this input.
use Prim.Native.String.{String}
use text.Mathlib.Text.{◌==◌}
use rociadb_core_sdk_rust.Prelude.{
  ℕ, ◌+◌, ◌≡◌, refl, Bool, false, Option, none, some, [], if◌then◌else◌, Result, ok, err,
}
use rociadb_core_sdk_rust.Duration.{from_secs}
use rociadb_core_sdk_rust.Error.{
  Status, sent, unauthenticated, status_error, code, is_unauthenticated,
}
use rociadb_core_sdk_rust.Auth.{Provider, intercept}
use rociadb_core_sdk_rust.Client.{RociaDbClient, attempt, attempt_with_replay}
use rociadb_core_sdk_rust.Client.Service.{Rpc}
use rociadb_core_sdk_rust.Client.Session.{
  World, manager_of, authenticated, replay_carries_new_header,
}

abbrev rejected : Status
rejected = record {
  code = unauthenticated;
  message = sent "token expired";
  reason_metadata = none;
  sources = [];
}

-- The provider counts the tokens that it grants.
abbrev grants : Provider ℕ
grants = record {
  fetch_token =
      λ e. (ok (record { access_token = "abc"; expires_in = 600; token_type = "Bearer" }), e + 1);
  parse_header = λ h. ok h;
  now = λ e. from_secs e;
}

abbrev fresh_header : String
fresh_header = "Bearer abc"

-- The upstream accepts that token only.
abbrev accepts : Option String → Bool
accepts none = false
accepts (some h) = h == fresh_header

abbrev answer_with : Option String → ℕ → Result Status ℕ
answer_with h n = if accepts h then ok (n + 1) else err rejected

abbrev upstream : Option String → Rpc ℕ ℕ ℕ
upstream h = record {
  call = λ r e. (answer_with h r.message, e);
  deadline = λ t r e. (some (answer_with h r.message), e);
}

abbrev client : RociaDbClient (World ℕ)
client = record {
  host = "http://127.0.0.1:50051";
  request_timeout = none;
  max_file_bytes = 1024;
  token_manager = some (manager_of grants);
}

abbrev start : World ℕ
start = (
  record {
    header_value = "Bearer old";
    lifetime = record { fetched_at = 0; lasts = 600 };
    fetch_attempts = 0;
    refresh_generation = 0;
    last_attempt_failure = none;
    refresh_notify = false;
  },
  0,
)

abbrev rpc : Rpc (World ℕ) ℕ ℕ
rpc = authenticated upstream

replay_carries_new_header_example :
    (w2 : World ℕ) × (attempt_with_replay client rpc.call rpc.deadline "failed to get node" 4 none
        start
      ≡ attempt client rpc.call rpc.deadline "failed to get node" 4 none w2)
    × (intercept (some w2.0) none ≡ some fresh_header)
unfolding attempt is_unauthenticated code
replay_carries_new_header_example =
    replay_carries_new_header grants client upstream "failed to get node" 4 none
      (status_error "failed to get node" rejected)
      (record { access_token = "abc"; expires_in = 600; token_type = "Bearer" }) fresh_header start
      refl refl refl refl refl
