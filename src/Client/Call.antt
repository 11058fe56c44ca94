-- ===== src/Client/Call.antt =====
-- How often an RPC is sent, and with which answer (`attempt_with_replay` of `src/lib.rs`).
use Prim.Native.String.{String}
use rociadb_core_sdk_rust.Prelude.{
  ℕ, ◌+◌, ◌≡◌, refl, sym, ◌∙◌, ◌⊎◌, inl, inr, true, false, Option, none, some, arith, Bool-cases,
  Option-cases, Result, Result-cases, Action, ok, err,
}
use rociadb_core_sdk_rust.Duration.{Duration}
use rociadb_core_sdk_rust.Error.{Error, Status, deadline_exceeded, code, is_unauthenticated}
use rociadb_core_sdk_rust.Client.{
  Request, Manager, RociaDbClient, kept_for_replay, refresh_for_replay, attempt,
  attempt_with_replay, is_local_deadline_expired, deadline_error,
}

-- `calls` reads off a world how often the RPC was sent. A call sends it once, with a deadline or
-- without one, and a token refresh does not send it.
pub record Meter {W Req Resp : Type 0} (client : RociaDbClient W)
    (call : Request Req → Action W (Result Status Resp))
    (deadline : Duration → Request Req → Action W (Option (Result Status Resp))) : Type 0 where
  pub calls : W → ℕ
  pub call_calls : (r : Request Req) (w : W) → calls (call r w).1 ≡ calls w + 1
  pub deadline_calls :
      (t : Duration) (r : Request Req) (w : W) → calls (deadline t r w).1 ≡ calls w + 1
  pub refresh_calls :
      (m : Manager W) (w : W) → client.token_manager ≡ some m → calls (m.refresh_now w).1 ≡ calls w

module _ {W Req Resp : Type 0} (client : RociaDbClient W)
    (call : Request Req → Action W (Result Status Resp))
    (deadline : Duration → Request Req → Action W (Option (Result Status Resp)))
    (operation : String) where
  pub kept_with_manager :
      (m : Manager W) (message : Req)
      → client.token_manager ≡ some m
      → kept_for_replay client call deadline operation message ≡ some message
  unfolding kept_for_replay
  kept_with_manager m message on = rw on refl

  pub kept_without_manager :
      (message : Req)
      → client.token_manager ≡ none
      → kept_for_replay client call deadline operation message ≡ none
  unfolding kept_for_replay
  kept_without_manager message off = rw off refl

  pub kept_is :
      (message replay : Req)
      → kept_for_replay client call deadline operation message ≡ some replay
      → replay ≡ message
  kept_is message replay kept = elim (Option-cases client.token_manager) [
    | inl off ↦
        let without : kept_for_replay client call deadline operation message ≡ none =
          kept_without_manager message off in
        cc (kept, without)
    | inr (m, on) ↦
        let kept_one : kept_for_replay client call deadline operation message ≡ some message =
          kept_with_manager m message on in
        cc (kept, kept_one)
  ]

  pub refresh_for_replay_lem :
      (m : Manager W) (error : Error) (w : W)
      → client.token_manager ≡ some m
      → is_unauthenticated error ≡ true
      → refresh_for_replay client error w
        ≡ (elim (m.refresh_now w).0 [ ok _ ↦ true | err _ ↦ false ], (m.refresh_now w).1)
  unfolding refresh_for_replay
  refresh_for_replay_lem m error w on unauth = rw (unauth, refresh_for_replay) (rw on refl)

  pub no_refresh_otherwise :
      (error : Error) (w : W)
      → is_unauthenticated error ≡ false
      → refresh_for_replay client error w ≡ (false, w)
  unfolding refresh_for_replay
  no_refresh_otherwise error w other = rw (other, refresh_for_replay) refl

  module _ (meter : Meter client call deadline) where
    attempt_calls :
        (message : Req) (timeout : Option Duration) (w : W)
        → meter.calls (attempt client call deadline operation message timeout w).1
          ≡ meter.calls w + 1
    unfolding attempt
    attempt_calls message none w = meter.call_calls _ w
    attempt_calls message (some t) w = meter.deadline_calls t _ w

    -- The RPC was sent once, and this is its answer.
    pub record SentOnce (message : Req) (timeout : Option Duration) (w : W) : Type 0 where
      pub answer_is :
          (attempt_with_replay client call deadline operation message timeout w).0
          ≡ (attempt client call deadline operation message timeout w).0
      pub calls_are :
          meter.calls (attempt_with_replay client call deadline operation message timeout w).1
          ≡ meter.calls w + 1

    -- The first answer said that the token is no good, the refresh succeeded, and the second answer is
    -- the answer.
    pub record Replayed (message : Req) (timeout : Option Duration) (w : W) : Type 0 where
      pub error : Error
      pub manager : Manager W
      pub has_manager : client.token_manager ≡ some manager
      pub first_failed : (attempt client call deadline operation message timeout w).0 ≡ err error
      pub unauthenticated_first : is_unauthenticated error ≡ true
      pub refreshed :
          (manager.refresh_now (attempt client call deadline operation message timeout w).1).0
          ≡ ok tt
      pub runs :
          attempt_with_replay client call deadline operation message timeout w
          ≡ attempt client call deadline operation message timeout
              (manager.refresh_now (attempt client call deadline operation message timeout w).1).1
      pub calls_are :
          meter.calls (attempt_with_replay client call deadline operation message timeout w).1
          ≡ meter.calls w + 2

    -- A call sends the RPC once and returns its answer, or it sends it exactly twice: after an
    -- UNAUTHENTICATED answer, with a token manager, and after a refresh that succeeded. The meter's laws say that
    -- a call sends once and a refresh does not send.
    pub attempt_with_replay_lem :
        (message : Req) (timeout : Option Duration) (w : W)
        → SentOnce message timeout w ⊎ Replayed message timeout w
    unfolding attempt_with_replay
    attempt_with_replay_lem message timeout w =
        let (answer, w') = attempt client call deadline operation message timeout w in
        let once : meter.calls w' ≡ meter.calls w + 1 = attempt_calls message timeout w in
        elim (Result-cases answer) [
          | inl (response, good) ↦ inl (record {
            answer_is = rw (good, attempt_with_replay) refl;
            calls_are = rw (good, attempt_with_replay) once;
          })
          | inr (error, bad) ↦ elim (Option-cases client.token_manager) [
            | inl off ↦ inl (record {
              answer_is =
                  rw (bad, attempt_with_replay) (rw (kept_without_manager message off) refl);
              calls_are =
                  rw (bad, attempt_with_replay) (rw (kept_without_manager message off) once);
            })
            | inr (m, on) ↦ elim (Bool-cases (is_unauthenticated error)) [
              | inr other ↦
                  let run : attempt_with_replay client call deadline operation message timeout w
                      ≡ (err error, w') =
                    rw (bad, attempt_with_replay)
                      (rw (kept_with_manager m message on)
                        (rw (no_refresh_otherwise error w' other) refl)) in
                  inl (record { answer_is = rw run (sym bad); calls_are = rw run once })
              | inl unauth ↦
                  let same : meter.calls (m.refresh_now w').1 ≡ meter.calls w' =
                    meter.refresh_calls m w' on in
                  elim (Result-cases (m.refresh_now w').0) [
                    | inr (x, failed) ↦
                        let run : attempt_with_replay client call deadline operation message timeout
                              w
                            ≡ (err error, (m.refresh_now w').1) =
                          rw (bad, attempt_with_replay)
                            (rw (kept_with_manager m message on) (
                              rw (refresh_for_replay_lem m error w' on unauth) (rw failed refl))) in
                        inl (record {
                          answer_is = rw run (sym bad);
                          calls_are = rw run (same ∙ once);
                        })
                    | inl (u, worked) ↦
                        let run : attempt_with_replay client call deadline operation message timeout
                              w
                            ≡ attempt client call deadline operation message timeout
                                (m.refresh_now w').1 =
                          rw (bad, attempt_with_replay)
                            (rw (kept_with_manager m message on) (
                              rw (refresh_for_replay_lem m error w' on unauth) (rw worked refl))) in
                        inr (record {
                          error = error;
                          manager = m;
                          has_manager = on;
                          first_failed = bad;
                          unauthenticated_first = unauth;
                          refreshed = worked;
                          runs = run;
                          calls_are = rw run (
                              omega (
                                arith,
                                attempt_calls message timeout (m.refresh_now w').1,
                                same,
                                once,
                              ));
                        })
                  ]
            ]
          ]
        ]

    -- A call whose deadline expires is sent once and never replayed, and its error has the code
    -- DEADLINE_EXCEEDED, whether the client's own timer noticed it or the transport's.
    pub deadline_lem :
        (message : Req) (t : Duration) (w : W)
        → let outcome = (deadline t (record { message = message; timeout = some t }) w).0 in
          (outcome ≡ none)
            ⊎ ((s : Status) × (outcome ≡ some (err s)) × (is_local_deadline_expired s ≡ true))
          → (e : Error) × ((attempt_with_replay client call deadline operation message (some t) w).0
              ≡ err e)
            × (code e ≡ some deadline_exceeded)
            × (meter.calls (attempt_with_replay client call deadline operation message (some t) w).1
                ≡ meter.calls w + 1)
    unfolding attempt code is_unauthenticated
    deadline_lem message t w expired =
        let e : Error = deadline_error operation t in
        let first : (attempt client call deadline operation message (some t) w).0 ≡ err e =
          elim expired [
            | inl over ↦ rw (over, attempt) refl
            | inr (s, over, local) ↦ rw (over, attempt) (rw local refl)
          ] in
        elim (attempt_with_replay_lem message (some t) w) [
          | inl o ↦ (e, o.answer_is ∙ first, refl, o.calls_are)
          | inr r ↦ let same : r.error ≡ e = cc in absurd (ground arith)
        ]
