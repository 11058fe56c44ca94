-- ===== src/Client/Session.antt =====
-- The client, its token manager and the interceptor together (`src/lib.rs`, `src/auth.rs`): what a
-- call that is rejected for its token sends the second time.
mod Tests
use Prim.Native.String.{String}
use rociadb_core_sdk_rust.Prelude.{◌≡◌, refl, ap, true, Option, none, some, arith, ok, err}
use rociadb_core_sdk_rust.Duration.{Duration}
use rociadb_core_sdk_rust.Error.{Error, is_unauthenticated}
use rociadb_core_sdk_rust.Auth.{
  fetch_add_one, TokenManager, TokenResponse, Provider, build_header, intercept, fetch_and_install,
  refresh_attempt, refresh_now, ensure_fresh, request_refresh,
}
use rociadb_core_sdk_rust.Auth.Refresh.{refresh_locked_current}
use rociadb_core_sdk_rust.Client.{Manager, RociaDbClient, attempt, attempt_with_replay}
use rociadb_core_sdk_rust.Client.Call.{kept_with_manager, refresh_for_replay_lem}
use rociadb_core_sdk_rust.Client.Service.{Rpc}

-- The world: what the token manager's tasks share, and everything else.
abbrev pub World : Type 0 → Type 0
World E = TokenManager × E

-- The token manager as the client knows it, while nobody else holds the refresh lock.
abbrev pub manager_of : {E : Type 0} → Provider E → Manager (World E)
manager_of idp = record {
  refresh_now = refresh_now idp (λ s. s);
  ensure_fresh = ensure_fresh idp (λ s. s);
  request_refresh = λ s. (request_refresh s.0, s.1);
}

-- An RPC behind the interceptor: `upstream` is the RPC with the `authorization` header that it is
-- called with.
abbrev pub authenticated :
    {E Req Resp : Type 0} → (Option String → Rpc E Req Resp) → Rpc (World E) Req Resp
authenticated upstream = record {
  call = λ r w.
      let (answer, e') = (upstream (intercept (some w.0) none)).call r w.1 in (answer, (w.0, e'));
  deadline = λ t r w.
      let (answer, e') = (upstream (intercept (some w.0) none)).deadline t r w.1 in
      (answer, (w.0, e'));
}

module _ {E : Type 0} (idp : Provider E) where
  fetch_and_install_lem :
      (m : TokenManager) (e : E) (token : TokenResponse) (header : String)
      → (idp.fetch_token e).0 ≡ ok token
      → build_header idp token ≡ ok header
      → ((fetch_and_install idp (m, e)).0 ≡ ok tt)
        × ((fetch_and_install idp (m, e)).1.0.header_value ≡ header)
  unfolding fetch_and_install
  fetch_and_install_lem m e token header fetched built = (
    rw (fetched, fetch_and_install) (rw built refl),
    rw (fetched, fetch_and_install) (rw built refl),
  )

  -- A refresh that gets a token installs its header.
  refresh_now-header :
      (w : World E) (token : TokenResponse) (header : String)
      → (idp.fetch_token w.1).0 ≡ ok token
      → build_header idp token ≡ ok header
      → ((refresh_now idp (λ s. s) w).0 ≡ ok tt)
        × ((refresh_now idp (λ s. s) w).1.0.header_value ≡ header)
  unfolding refresh_now refresh_attempt
  refresh_now-header (m, e) token header fetched built =
      let counted : TokenManager = record m { fetch_attempts = fetch_add_one m.fetch_attempts } in
      let (done, is) = fetch_and_install_lem counted e token header fetched built in
      rw (refresh_locked_current idp m e m.refresh_generation (ground arith)) (done, is)

  -- A call that is answered UNAUTHENTICATED, and whose token refresh gets a token with a good header,
  -- is sent once more, with the header of that token, and the second answer is returned. It is said
  -- for a client with a token manager, while nobody else holds the refresh lock.
  pub replay_carries_new_header :
      {Req Resp : Type 0} (client : RociaDbClient (World E))
      (upstream : Option String → Rpc E Req Resp) (operation : String) (message : Req)
      (timeout : Option Duration) (error : Error) (token : TokenResponse) (header : String)
      (w : World E)
      → client.token_manager ≡ some (manager_of idp)
      → let rpc = authenticated upstream in
        let (answer, w1) = attempt client rpc.call rpc.deadline operation message timeout w in
        answer ≡ err error
        → is_unauthenticated error ≡ true
        → (idp.fetch_token w1.1).0 ≡ ok token
        → build_header idp token ≡ ok header
        → (w2 : World E) × (attempt_with_replay client rpc.call rpc.deadline operation message
              timeout w
            ≡ attempt client rpc.call rpc.deadline operation message timeout w2)
          × (intercept (some w2.0) none ≡ some header)
  unfolding attempt_with_replay
  replay_carries_new_header client upstream operation message timeout error token header w on bad
        unauth fetched built =
      let rpc : Rpc (World E) _ _ = authenticated upstream in
      let (answer, w1) = attempt client rpc.call rpc.deadline operation message timeout w in
      let (done, is) = refresh_now-header w1 token header fetched built in
      (
        (refresh_now idp (λ s. s) w1).1,
        rw (bad, attempt_with_replay)
            (rw
              (kept_with_manager client rpc.call rpc.deadline operation (manager_of idp) message on)
              (rw
                (refresh_for_replay_lem client rpc.call rpc.deadline operation (manager_of idp)
                  error w1 on unauth)
                (rw done refl))),
        ap some is,
      )
