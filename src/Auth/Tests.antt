-- ===== src/Auth/Tests.antt =====
-- Runs of the token manager, and its theorems at concrete inputs.
use rociadb_core_sdk_rust.Prelude.{
  ℕ, ◌+◌, ◌*◌, ◌/◌, ◌^◌, ◌≤◌, ◌<◌, min, ◌≡◌, refl, false, none, List, [], ◌∷◌, arith, ◌==◌,
  if◌then◌else◌, max_u64, length, ok, err,
}
use rociadb_core_sdk_rust.Duration.{from_secs}
use rociadb_core_sdk_rust.Error.{Error, auth, text}
use rociadb_core_sdk_rust.Auth.{
  TokenManager, Provider, Wake, ticked, notified, refresh_interval, refresh_attempt,
  fetch_and_install, refresh_locked, refresh_now, spawn_refresh,
}
use rociadb_core_sdk_rust.Auth.Lifetime.{refresh_interval_lem}
use rociadb_core_sdk_rust.Auth.Background.{spawn_refresh_outage}

abbrev refused : Error
refused = auth (text "token endpoint returned error") none

-- A provider that counts its requests and grants only the third.
abbrev third_granted : Provider ℕ
third_granted = record {
  fetch_token = λ e. (
    if e == 2
        then ok (record { access_token = "abc"; expires_in = 600; token_type = "Bearer" })
        else err refused,
    e + 1,
  );
  parse_header = λ h. ok h;
  now = λ e. from_secs e;
}

abbrev down : Provider ℕ
down = record {
  fetch_token = λ e. (err refused, e + 1);
  parse_header = λ h. ok h;
  now = λ e. from_secs e;
}

abbrev cached : TokenManager
cached = record {
  header_value = "Bearer old";
  lifetime = record { fetched_at = 0; lasts = 600 };
  fetch_attempts = 0;
  refresh_generation = 7;
  last_attempt_failure = none;
  refresh_notify = false;
}

refused_first : (refresh_now third_granted (λ s. s) (cached, 0)).0 ≡ err refused
unfolding refresh_now refresh_locked refresh_attempt fetch_and_install
refused_first = refl

granted_third : (refresh_now third_granted (λ s. s) (cached, 2)).1.0.header_value ≡ "Bearer abc"
unfolding refresh_now refresh_locked refresh_attempt fetch_and_install
granted_third = refl

refresh_interval_example :
    (from_secs 1 ≤ refresh_interval cached)
    × (2 ≤ 600 → refresh_interval cached < from_secs 600)
    × (8 ≤ 600 → 600 * 2 ≤ max_u64 → refresh_interval cached ≡ from_secs (600 * 2 / 3))
refresh_interval_example = refresh_interval_lem cached

abbrev two_wakes : List (Wake × List ℕ)
two_wakes = (ticked, []) ∷ (notified, []) ∷ []

spawn_refresh_outage_example :
    let (task, s') = spawn_refresh down (λ s. s) (from_secs 400) two_wakes (cached, 0) in
    (task.consecutive_failures ≡ length two_wakes)
    × (1 ≤ length two_wakes
        → (min (from_secs (2 ^ 1)) (from_secs 30) / 2 ≤ task.reset_after)
          × (task.reset_after ≤ min (from_secs (2 ^ 1)) (from_secs 30)))
    × (s'.0.header_value ≡ cached.header_value)
    × (s'.0.lifetime ≡ cached.lifetime)
spawn_refresh_outage_example =
    spawn_refresh_outage down (λ e. (refused, refl)) (from_secs 400) two_wakes (cached, 0) refl
      (omega arith)
