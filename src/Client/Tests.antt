-- ===== src/Client/Tests.antt =====
-- Runs of the client's calls over a token manager of `src/auth.rs`, and the theorems at concrete
-- inputs.
use mathlib.Core.Path.{subst}
use rociadb_core_sdk_rust.Prelude.{
  ℕ, ◌+◌, ◌≡◌, refl, ◌⊎◌, inl, false, Option, none, some, [], arith, ltb, if◌then◌else◌, unwrap_or,
  Result, ok, err,
}
use rociadb_core_sdk_rust.Duration.{Duration, from_secs}
use rociadb_core_sdk_rust.Error.{
  Error, Status, sent, unauthenticated, deadline_exceeded, code, is_unauthenticated,
}
use rociadb_core_sdk_rust.Auth.{
  TokenManager, Provider, refresh_now, refresh_locked, refresh_attempt, fetch_and_install,
  ensure_fresh, request_refresh,
}
use rociadb_core_sdk_rust.Auth.Refresh.{refresh_locked_current}
use rociadb_core_sdk_rust.Client.{
  Request, Manager, RociaDbClient, attempt, refresh_for_replay, kept_for_replay,
  attempt_with_replay,
}
use rociadb_core_sdk_rust.Client.Call.{
  Meter, SentOnce, Replayed, attempt_with_replay_lem, deadline_lem,
}

-- The token manager as the client sees it, over the world of its state and the provider's.
abbrev manager :
    {E : Type 0} → Provider E → (TokenManager × E → TokenManager × E) → Manager (TokenManager × E)
manager idp wait = record {
  refresh_now = refresh_now idp wait;
  ensure_fresh = ensure_fresh idp wait;
  request_refresh = λ s. (request_refresh s.0, s.1);
}

abbrev rejected : Status
rejected = record {
  code = unauthenticated;
  message = sent "token expired";
  reason_metadata = none;
  sources = [];
}

-- The provider's state is a pair: how many tokens it has granted, and how many RPCs were sent.
abbrev grants : Provider (ℕ × ℕ)
grants = record {
  fetch_token = λ e. (
    ok (record { access_token = "abc"; expires_in = 600; token_type = "Bearer" }),
    (e.0 + 1, e.1),
  );
  parse_header = λ h. ok h;
  now = λ e. from_secs e.0;
}

abbrev World : Type 0
World = TokenManager × (ℕ × ℕ)

-- The upstream accepts a call once a token has been granted.
abbrev call : Request ℕ → World → Result Status ℕ × World
call r w = (if ltb 0 w.1.0 then ok (r.message + 1) else err rejected, (w.0, (w.1.0, w.1.1 + 1)))

-- No time is ever left.
abbrev deadline : Duration → Request ℕ → World → Option (Result Status ℕ) × World
deadline t r w = (none, (w.0, (w.1.0, w.1.1 + 1)))

abbrev client : RociaDbClient World
client = record {
  host = "http://127.0.0.1:50051";
  request_timeout = none;
  max_file_bytes = 1024;
  token_manager = some (manager grants (λ s. s));
}

abbrev start : World
start = (
  record {
    header_value = "Bearer old";
    lifetime = record { fetched_at = 0; lasts = 600 };
    fetch_attempts = 0;
    refresh_generation = 0;
    last_attempt_failure = none;
    refresh_notify = false;
  },
  (0, 0),
)

replayed : (attempt_with_replay client call deadline "failed to get node" 4 none start).0 ≡ ok 5
unfolding attempt_with_replay kept_for_replay refresh_for_replay attempt refresh_now refresh_locked
    refresh_attempt fetch_and_install is_unauthenticated code
replayed = refl

refresh_keeps : (w : World) → (refresh_now grants (λ s. s) w).1.1.1 ≡ w.1.1
unfolding refresh_now refresh_attempt fetch_and_install
refresh_keeps w =
    rw (refresh_locked_current grants w.0 w.1 w.0.refresh_generation (ground arith)) refl

meter : Meter client call deadline
meter = record {
  calls = λ w. w.1.1;
  call_calls = λ r w. refl;
  deadline_calls = λ t r w. refl;
  refresh_calls = λ m w on.
      subst (λ o. ((unwrap_or o (manager grants (λ s. s))).refresh_now w).1.1.1 ≡ w.1.1) on
        (refresh_keeps w);
}

attempt_with_replay_example :
    SentOnce client call deadline "failed to get node" meter 4 none start
    ⊎ Replayed client call deadline "failed to get node" meter 4 none start
attempt_with_replay_example =
    attempt_with_replay_lem client call deadline "failed to get node" meter 4 none start

deadline_example :
    (e : Error) × ((attempt_with_replay client call deadline "failed to get node" 4
        (some (from_secs 1))
        start).0
      ≡ err e)
    × (code e ≡ some deadline_exceeded)
    × (meter.calls
          (attempt_with_replay client call deadline "failed to get node" 4
            (some (from_secs 1))
            start).1
        ≡ meter.calls start + 1)
deadline_example =
    deadline_lem client call deadline "failed to get node" meter 4 (from_secs 1) start (inl refl)
