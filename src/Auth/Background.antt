-- ===== src/Auth/Background.antt =====
-- The background task of `src/auth.rs` through an outage of the identity provider.
use rociadb_core_sdk_rust.Prelude.{
  ℕ, suc, ◌+◌, ◌-◌, ◌/◌, ◌^◌, ◌≤◌, min, ◌≡◌, refl, ◌∙◌, Bool, true, false, List, [], ◌∷◌, arith,
  max_u32, length, err,
}
use rociadb_core_sdk_rust.Duration.{Duration, from_secs}
use rociadb_core_sdk_rust.Error.{Error}
use rociadb_core_sdk_rust.Auth.{
  TokenManager, Provider, RefreshTask, Wake, ticked, notified, shutdown, refresh_now, refresh_round,
  run_task, spawn_refresh, jittered_retry_backoff, refresh_tick_period, refresh_attempt,
  fetch_and_install, saturating_add_u32,
}
use rociadb_core_sdk_rust.Auth.Refresh.{refresh_now_keeps, refresh_locked_current}
use rociadb_core_sdk_rust.Auth.Lifetime.{jittered_retry_backoff_lem}

-- Wakes that all ask for a refresh.
abbrev pub no_shutdown : List (Wake × List ℕ) → Bool
no_shutdown [] = true
no_shutdown ((ticked, uuid) ∷ wakes) = no_shutdown wakes
no_shutdown ((notified, uuid) ∷ wakes) = no_shutdown wakes
no_shutdown ((shutdown, uuid) ∷ wakes) = false

-- After the n-th failure in a row the ticker is due between half of 2 ^ (n - 1) seconds, cut at
-- thirty, and all of it.
abbrev BackedOff : RefreshTask → Type 0
BackedOff task =
    1 ≤ task.consecutive_failures
    → (min (from_secs (2 ^ (task.consecutive_failures - 1))) (from_secs 30) / 2 ≤ task.reset_after)
      × (task.reset_after ≤ min (from_secs (2 ^ (task.consecutive_failures - 1))) (from_secs 30))

module _ {E : Type 0} (idp : Provider E)
    (down : (e : E) → (x : Error) × ((idp.fetch_token e).0 ≡ err x)) where
  refresh_fails : (s : TokenManager × E) → (x : Error) × ((refresh_now idp (λ t. t) s).0 ≡ err x)
  unfolding refresh_now refresh_attempt fetch_and_install
  refresh_fails s =
      let (x, e) = down s.1 in
      (
        x,
        rw (refresh_locked_current idp s.0 s.1 s.0.refresh_generation (ground arith))
            (rw (e, refresh_attempt) refl),
      )

  -- A round of the outage.
  record Failed (uuid : List ℕ) (task : RefreshTask) (s : TokenManager × E)
      (after : RefreshTask × (TokenManager × E)) : Type 0 where
    failures : after.0.consecutive_failures ≡ saturating_add_u32 task.consecutive_failures 1
    due : after.0.reset_after ≡ jittered_retry_backoff task.consecutive_failures uuid
    header : after.1.0.header_value ≡ s.0.header_value
    lasting : after.1.0.lifetime ≡ s.0.lifetime

  refresh_round-Failed :
      (uuid : List ℕ) (task : RefreshTask) (s : TokenManager × E)
      → Failed uuid task s (refresh_round idp (λ t. t) uuid (task, s))
  unfolding refresh_round
  refresh_round-Failed uuid task s =
      let (x, e) = refresh_fails s in
      let (h, l) = refresh_now_keeps idp (λ t. t) s x e in
      rw (e, refresh_round) (record { failures = refl; due = refl; header = h; lasting = l })

  -- What a run of failing rounds leaves.
  record Outage (k : ℕ) (task : RefreshTask) (s : TokenManager × E)
      (after : RefreshTask × (TokenManager × E)) : Type 0 where
    failures : after.0.consecutive_failures ≡ task.consecutive_failures + k
    due : BackedOff after.0
    header : after.1.0.header_value ≡ s.0.header_value
    lasting : after.1.0.lifetime ≡ s.0.lifetime

  -- One more round in front.
  refresh_round-Outage :
      (k : ℕ) (uuid : List ℕ) (task : RefreshTask) (s : TokenManager × E)
      (after : RefreshTask × (TokenManager × E))
      → task.consecutive_failures + suc k ≤ max_u32
      → (let (task', s') = refresh_round idp (λ t. t) uuid (task, s) in
          task'.consecutive_failures + k ≤ max_u32 → BackedOff task' → Outage k task' s' after)
      → Outage (suc k) task s after
  refresh_round-Outage k uuid task s after fits rest =
      let (task', s') = refresh_round idp (λ t. t) uuid (task, s) in
      let r : Failed uuid task s (task', s') = refresh_round-Failed uuid task s in
      let low : (min (from_secs (2 ^ task.consecutive_failures)) (from_secs 30) / 2
            ≤ jittered_retry_backoff task.consecutive_failures uuid)
          × (jittered_retry_backoff task.consecutive_failures uuid
              ≤ min (from_secs (2 ^ task.consecutive_failures)) (from_secs 30)) =
        jittered_retry_backoff_lem task.consecutive_failures uuid in
      let count : task'.consecutive_failures ≡ task.consecutive_failures + 1 =
        omega (arith, r.failures, fits) in
      let before : task.consecutive_failures ≡ task'.consecutive_failures - 1 =
        omega (arith, count) in
      let o : Outage k task' s' after =
        rest (omega (arith, count, fits)) (λ some_failed. rw (← before, r.due) low) in
      record {
        failures = omega (arith, count, o.failures);
        due = o.due;
        header = o.header ∙ r.header;
        lasting = o.lasting ∙ r.lasting;
      }

  run_task-Outage :
      (wakes : List (Wake × List ℕ)) (task : RefreshTask) (s : TokenManager × E)
      → no_shutdown wakes ≡ true
      → task.consecutive_failures + length wakes ≤ max_u32
      → BackedOff task
      → Outage (length wakes) task s (run_task idp (λ t. t) wakes (task, s))
  unfolding run_task
  run_task-Outage [] task s up fits backed = record {
    failures = omega arith;
    due = backed;
    header = refl;
    lasting = refl;
  }
  run_task-Outage ((shutdown, uuid) ∷ wakes) task s up fits backed = cc
  run_task-Outage ((ticked, uuid) ∷ wakes) task s up fits backed =
      let (task', s') = refresh_round idp (λ t. t) uuid (task, s) in
      refresh_round-Outage (length wakes) uuid task s (run_task idp (λ t. t) wakes (task', s')) fits
        (run_task-Outage wakes task' s' up)
  run_task-Outage ((notified, uuid) ∷ wakes) task (m, e) up fits backed =
      let taken : TokenManager × E = (record m { refresh_notify = false }, e) in
      let (task', s') = refresh_round idp (λ t. t) uuid (task, taken) in
      let o : Outage (suc (length wakes)) task taken (run_task idp (λ t. t) wakes (task', s')) =
        refresh_round-Outage (length wakes) uuid task taken
          (run_task idp (λ t. t) wakes (task', s')) fits (run_task-Outage wakes task' s' up) in
      record { failures = o.failures; due = o.due; header = o.header; lasting = o.lasting }

  -- Through an outage of the identity provider the background task counts every failed refresh and
  -- leaves the cached header and its lifetime alone. After the k-th failure its ticker is due between half of
  -- 2 ^ (k - 1) seconds, cut at thirty, and all of it. The rounds must be fewer than 2 ^ 32, and no other task refreshes meanwhile.
  pub spawn_refresh_outage :
      (interval : Duration) (wakes : List (Wake × List ℕ)) (s : TokenManager × E)
      → no_shutdown wakes ≡ true
      → length wakes ≤ max_u32
      → let (task, s') = spawn_refresh idp (λ t. t) interval wakes s in
        (task.consecutive_failures ≡ length wakes)
        × (1 ≤ length wakes
            → (min (from_secs (2 ^ (length wakes - 1))) (from_secs 30) / 2 ≤ task.reset_after)
              × (task.reset_after ≤ min (from_secs (2 ^ (length wakes - 1))) (from_secs 30)))
        × (s'.0.header_value ≡ s.0.header_value)
        × (s'.0.lifetime ≡ s.0.lifetime)
  unfolding spawn_refresh
  spawn_refresh_outage interval wakes s up fits =
      let task : RefreshTask = record {
        consecutive_failures = 0;
        reset_after = refresh_tick_period interval;
      } in
      let (task', s') = run_task idp (λ t. t) wakes (task, s) in
      let o : Outage (length wakes) task s (task', s') =
        run_task-Outage wakes task s up (omega (arith, fits))
          (λ some_failed. absurd (omega arith)) in
      let count : task'.consecutive_failures ≡ length wakes = omega (arith, o.failures) in
      (count, λ some_failed. rw (← count) (o.due (omega (arith, count))), o.header, o.lasting)
