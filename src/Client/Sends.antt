-- ===== src/Client/Sends.antt =====
-- What a call leaves in a log of the messages that were sent (`unary` of `src/lib.rs`).
use Prim.Native.String.{String}
use mathlib.Core.List.{append_assoc}
use rociadb_core_sdk_rust.Prelude.{
  ◌≡◌, refl, ◌∙◌, ◌⊎◌, inl, inr, Option, none, some, List, [], ◌∷◌, ◌++◌, Bool-cases, Option-cases,
  Result-cases,
}
use rociadb_core_sdk_rust.Duration.{Duration}
use rociadb_core_sdk_rust.Error.{Error, is_unauthenticated}
use rociadb_core_sdk_rust.Client.{
  Request, Manager, RociaDbClient, kept_for_replay, refresh_for_replay, attempt,
  attempt_with_replay,
}
use rociadb_core_sdk_rust.Client.Call.{kept_is}
use rociadb_core_sdk_rust.Client.Service.{Rpc, send}

-- `log` reads off a world what was sent, `note` is an RPC's message in it. Every call of the RPC
-- adds its message, and a token refresh adds nothing.
pub record Recorded {W Req Resp L : Type 0} (client : RociaDbClient W) (rpc : Rpc W Req Resp)
    (log : W → List L) (note : Req → L) : Type 0 where
  pub call_logs : (r : Request Req) (w : W) → log (rpc.call r w).1 ≡ log w ++ note r.message ∷ []
  pub deadline_logs :
      (t : Duration) (r : Request Req) (w : W)
      → log (rpc.deadline t r w).1 ≡ log w ++ note r.message ∷ []

-- A token refresh adds nothing to the log.
abbrev pub RefreshesApart : {W L : Type 0} → RociaDbClient W → (W → List L) → Type 0
RefreshesApart {W} client log =
    (m : Manager W) (w : W) → client.token_manager ≡ some m → log (m.refresh_now w).1 ≡ log w

-- A message was sent once, or twice in a row.
abbrev pub Sent : {L : Type 0} → L → List L → List L → Type 0
Sent l before after = (after ≡ before ++ l ∷ []) ⊎ (after ≡ before ++ l ∷ l ∷ [])

module _ {W Req Resp L : Type 0} (client : RociaDbClient W) (rpc : Rpc W Req Resp)
    (log : W → List L) (note : Req → L) (rec : Recorded client rpc log note)
    (apart : RefreshesApart client log) where
  attempt_logs :
      (operation : String) (message : Req) (timeout : Option Duration) (w : W)
      → log (attempt client rpc.call rpc.deadline operation message timeout w).1
        ≡ log w ++ note message ∷ []
  unfolding attempt
  attempt_logs operation message none w = rec.call_logs _ w
  attempt_logs operation message (some t) w = rec.deadline_logs t _ w

  refresh_logs : (error : Error) (w : W) → log (refresh_for_replay client error w).1 ≡ log w
  unfolding refresh_for_replay
  refresh_logs error w = elim (Bool-cases (is_unauthenticated error)) [
    | inr other ↦ rw (other, refresh_for_replay) refl
    | inl unauth ↦ elim (Option-cases client.token_manager) [
      | inl off ↦ rw (unauth, refresh_for_replay) (rw off refl)
      | inr (m, on) ↦ rw (unauth, refresh_for_replay) (rw on (apart m w on))
    ]
  ]

  attempt_with_replay_logs :
      (operation : String) (message : Req) (timeout : Option Duration) (w : W)
      → Sent
          (note message)
          (log w)
          (log (attempt_with_replay client rpc.call rpc.deadline operation message timeout w).1)
  unfolding attempt_with_replay
  attempt_with_replay_logs operation message timeout w =
      let (answer, w') = attempt client rpc.call rpc.deadline operation message timeout w in
      let once : log w' ≡ log w ++ note message ∷ [] = attempt_logs operation message timeout w in
      elim (Result-cases answer) [
        | inl (response, good) ↦ inl (rw (good, attempt_with_replay) once)
        | inr (error, bad) ↦
            elim (Option-cases (kept_for_replay client rpc.call rpc.deadline operation message)) [
              | inl none_kept ↦ inl (rw (bad, attempt_with_replay) (rw none_kept once))
              | inr (replay, kept) ↦ elim (Bool-cases (refresh_for_replay client error w').0) [
                | inr stop ↦ inl (
                    rw (bad, attempt_with_replay)
                      (rw kept (rw stop (refresh_logs error w' ∙ once))))
                | inl again ↦ inr (
                    rw (bad, attempt_with_replay)
                      (rw kept (
                        rw again (
                          attempt_logs operation replay timeout
                            (refresh_for_replay client error w').1
                          ∙ rw
                              (
                                refresh_logs error w' ∙ once,
                                kept_is client rpc.call rpc.deadline operation message replay kept,
                              )
                              (append_assoc (log w) (note message ∷ []) (note message ∷ []))))))
              ]
            ]
      ]

  -- A method that sends one RPC.
  pub send_logs :
      (operation : String) (message : Req) (w : W)
      → Sent (note message) (log w) (log (send client operation rpc message w).1)
  unfolding send
  send_logs operation message w =
      attempt_with_replay_logs operation message client.request_timeout w
