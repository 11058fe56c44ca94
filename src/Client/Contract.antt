-- ===== src/Client/Contract.antt =====
-- From what one RPC does to what a method that sends it does (`unary` of `src/lib.rs`): the first
-- attempt, the token refresh and the replay together.
use Prim.Native.String.{String}
use mathlib.Core.Path.{subst}
use rociadb_core_sdk_rust.Prelude.{
  ◌≡◌, refl, inl, inr, Option, none, some, Bool-cases, Option-cases, Result, Result-cases, ok, err,
}
use rociadb_core_sdk_rust.Duration.{Duration}
use rociadb_core_sdk_rust.Error.{Error, Status, is_unauthenticated}
use rociadb_core_sdk_rust.Client.{
  Manager, RociaDbClient, kept_for_replay, refresh_for_replay, attempt, status_context,
  is_local_deadline_expired, in_time, attempt_with_replay,
}
use rociadb_core_sdk_rust.Client.Call.{kept_is}
use rociadb_core_sdk_rust.Client.Service.{Rpc, send}

-- What an RPC with one message may do to the world: `Done` when it answers, `Tried` when it fails or
-- its time is over. A token refresh changes no more than a failed attempt, and attempts that failed
-- do not show in what a later one does.
pub record Effect (W Resp : Type 0) : Type 1 where
  pub Done : W → Resp → W → Type 0
  pub Tried : W → W → Type 0
  pub then_done : {a b c : W} {r : Resp} → Tried a b → Done b r c → Done a r c
  pub then_tried : {a b c : W} → Tried a b → Tried b c → Tried a c

-- The effect of an RPC's outcome, `none` when its time is over.
abbrev pub Answers :
    {W Resp : Type 0} → Effect W Resp → W → Option (Result Status Resp) → W → Type 0
Answers effect w none w' = effect.Tried w w'
Answers effect w (some (err s)) w' = effect.Tried w w'
Answers effect w (some (ok r)) w' = effect.Done w r w'

-- The effect of a method's outcome.
abbrev pub After : {W Resp : Type 0} → Effect W Resp → W → Result Error Resp → W → Type 0
After effect w (err e) w' = effect.Tried w w'
After effect w (ok r) w' = effect.Done w r w'

-- The RPC has the effect when it is called with this message.
pub record Contract {W Req Resp : Type 0} (client : RociaDbClient W) (rpc : Rpc W Req Resp)
    (message : Req) (effect : Effect W Resp) : Type 0 where
  pub called :
      (t : Option Duration) (w : W)
      → let (outcome, w') = rpc.call (record { message = message; timeout = t }) w in
        Answers effect w (some outcome) w'
  pub timed :
      (t : Duration) (w : W)
      → let (outcome, w') = rpc.deadline t (record { message = message; timeout = some t }) w in
        Answers effect w outcome w'
  pub refreshed :
      (m : Manager W) (w : W) → client.token_manager ≡ some m → effect.Tried w (m.refresh_now w).1

module _ {W Req Resp : Type 0} (client : RociaDbClient W) (rpc : Rpc W Req Resp) (message : Req)
    (effect : Effect W Resp) (contract : Contract client rpc message effect)
    (operation : String) where
  -- What is made of an outcome keeps its effect.
  status_context-After :
      (w : W) (outcome : Result Status Resp) (w' : W)
      → Answers effect w (some outcome) w'
      → After effect w (status_context operation outcome) w'
  status_context-After w (ok r) w' done = done
  status_context-After w (err s) w' tried = tried

  in_time-After :
      (t : Duration) (w : W) (outcome : Option (Result Status Resp)) (w' : W)
      → Answers effect w outcome w'
      → After effect w (in_time client rpc.call rpc.deadline operation t outcome) w'
  in_time-After t w none w' tried = tried
  in_time-After t w (some (ok r)) w' done = done
  in_time-After t w (some (err s)) w' tried = elim (Bool-cases (is_local_deadline_expired s)) [
    | inl local ↦ rw local tried
    | inr other ↦ rw other tried
  ]

  attempt-After :
      (timeout : Option Duration) (w : W)
      → let (answer, w') = attempt client rpc.call rpc.deadline operation message timeout w in
        After effect w answer w'
  unfolding attempt
  attempt-After none w = status_context-After w _ _ (contract.called none w)
  attempt-After (some t) w = in_time-After t w _ _ (contract.timed t w)

  -- Whether the refresh is tried or not, no more than a failed attempt shows.
  refresh-Tried :
      (error : Error) (w w' : W)
      → effect.Tried w w'
      → effect.Tried w (refresh_for_replay client error w').1
  unfolding refresh_for_replay
  refresh-Tried error w w' tried = elim (Bool-cases (is_unauthenticated error)) [
    | inr other ↦ rw (other, refresh_for_replay) tried
    | inl unauth ↦ elim (Option-cases client.token_manager) [
      | inl off ↦ rw (unauth, refresh_for_replay) (rw off tried)
      | inr (m, on) ↦
          rw (unauth, refresh_for_replay)
            (rw on (effect.then_tried tried (contract.refreshed m w' on)))
    ]
  ]

  -- A failure's effect, read off an answer that is known to be a failure.
  as_tried :
      {w w' : W} {answer : Result Error Resp} {e : Error}
      → answer ≡ err e
      → After effect w answer w'
      → effect.Tried w w'
  as_tried {w} {w'} failed after = subst (λ a. After effect w a w') failed after

  After-trans :
      (a b c : W) (answer : Result Error Resp)
      → effect.Tried a b
      → After effect b answer c
      → After effect a answer c
  After-trans a b c (ok r) tried done = effect.then_done tried done
  After-trans a b c (err e) tried failed = effect.then_tried tried failed

  -- A method that sends the RPC once or twice has the RPC's effect.
  pub send-After :
      (w : W) → let (answer, w') = send client operation rpc message w in After effect w answer w'
  unfolding send attempt_with_replay
  send-After w =
      let timeout = client.request_timeout in
      let (answer, w') = attempt client rpc.call rpc.deadline operation message timeout w in
      let once : After effect w answer w' = attempt-After timeout w in
      elim (Result-cases answer) [
        | inl (r, good) ↦
            rw (good, attempt_with_replay) (subst (λ a. After effect w a w') good once)
        | inr (e, bad) ↦
            let tried : effect.Tried w w' = as_tried bad once in
            elim (Option-cases (kept_for_replay client rpc.call rpc.deadline operation message)) [
              | inl alone ↦ rw (bad, attempt_with_replay) (rw alone tried)
              | inr (replay, kept) ↦
                  let (again, w2) = refresh_for_replay client e w' in
                  let still : effect.Tried w w2 = refresh-Tried e w w' tried in
                  elim (Bool-cases again) [
                    | inr stop ↦ rw (bad, attempt_with_replay) (rw kept (rw stop still))
                    | inl again ↦
                        rw (bad, attempt_with_replay)
                          (rw kept (
                            rw again (
                              rw
                                (kept_is client rpc.call rpc.deadline operation message replay kept)
                                (After-trans w w2 _ _ still (attempt-After timeout w2)))))
                  ]
            ]
      ]

-- The RPC answers this message with `response`, with a deadline or without, in every world.
pub record Answering {W Req Resp : Type 0} (rpc : Rpc W Req Resp) (message : Req) (response : Resp)
    : Type 0 where
  pub called :
      (t : Option Duration) (w : W)
      → (rpc.call (record { message = message; timeout = t }) w).0 ≡ ok response
  pub timed :
      (t : Duration) (w : W)
      → (rpc.deadline t (record { message = message; timeout = some t }) w).0 ≡ some (ok response)

module _ {W Req Resp : Type 0} (client : RociaDbClient W) (rpc : Rpc W Req Resp) (message : Req)
    (response : Resp) (answering : Answering rpc message response) (operation : String) where
  attempt_answers :
      (timeout : Option Duration) (w : W)
      → (attempt client rpc.call rpc.deadline operation message timeout w).0 ≡ ok response
  unfolding attempt
  attempt_answers none w = rw (answering.called none w) refl
  attempt_answers (some t) w = rw (answering.timed t w) refl

  -- An RPC that answers is sent once, and its answer returned.
  pub send_answers : (w : W) → (send client operation rpc message w).0 ≡ ok response
  unfolding send attempt_with_replay
  send_answers w = rw (attempt_answers client.request_timeout w, attempt_with_replay) refl
