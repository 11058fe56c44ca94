-- ===== src/Client/Builder/Order.antt =====
-- What a client that `build` of `src/lib.rs` returns was built with.
use Prim.Native.String.{String}
use rociadb_core_sdk_rust.Client.Builder.Checks.{Checked, settle-Checked}
use rociadb_core_sdk_rust.Prelude.{
  ℕ, ◌≡◌, refl, sym, ap, ◌∙◌, ◌≢◌, inl, inr, Option, none, some, arith, ◌==◌, Bool-cases,
  Result-cases, ok, err,
}
use rociadb_core_sdk_rust.Duration.{Duration}
use rociadb_core_sdk_rust.Error.{connection, text}
use rociadb_core_sdk_rust.Client.{resolve_request_timeout}
use rociadb_core_sdk_rust.Client.Builder.{
  RociaDbBuilder, Platform, BuiltClient, start_auth, build_on_channel, settle, build,
}

module _ {E M : Type 0} (platform : Platform E M) where
  -- What a client is built with.
  pub record Built (b : RociaDbBuilder) (opened : ℕ) (h : String) (ceiling : ℕ)
      (built : BuiltClient M) : Type 0 where
    pub channel_is : built.channel ≡ opened
    pub host_is : built.client_host ≡ h
    pub ceiling_is : built.file_ceiling ≡ ceiling
    pub deadline_is : built.deadline ≡ b.request_limit
    pub deadline_positive : b.request_limit ≢ some 0
    pub limit_is : built.decoding_limit ≡ b.message_limit

  positive_deadline :
      (o d : Option Duration) → resolve_request_timeout o ≡ ok d → (d ≡ o) × (o ≢ some 0)
  positive_deadline none d fine = (cc, λ zero_set. cc)
  positive_deadline (some t) d fine = elim (Bool-cases (t == 0)) [
    | inl instant ↦ absurd (ground arith)
    | inr later ↦ (ground arith, λ zero_set. ground arith)
  ]

  build_on_channel-Built :
      (b : RociaDbBuilder) (channel : ℕ) (h : String) (limit : Duration) (ceiling : ℕ) (e : E)
      (built : BuiltClient M)
      → (build_on_channel platform b channel h limit ceiling e).0 ≡ ok built
      → Built b channel h ceiling built
  unfolding build_on_channel
  build_on_channel-Built b channel h limit ceiling e built good =
      elim (Result-cases (resolve_request_timeout b.request_limit)) [
        | inr (x, bad) ↦
            let run : (build_on_channel platform b channel h limit ceiling e).0 ≡ err x =
              rw (bad, build_on_channel) refl in
            cc (good, run)
        | inl (deadline, fine) ↦ elim (Result-cases (start_auth platform b.auth_config limit e).0) [
          | inr (x, bad) ↦
              let run : (build_on_channel platform b channel h limit ceiling e).0 ≡ err x =
                rw (fine, build_on_channel) (rw bad refl) in
              cc (good, run)
          | inl (m, started) ↦
              let client : BuiltClient M = record {
                channel = channel;
                client_host = h;
                deadline = deadline;
                file_ceiling = ceiling;
                manager = m;
                decoding_limit = b.message_limit;
              } in
              let run : (build_on_channel platform b channel h limit ceiling e).0 ≡ ok client =
                rw (fine, build_on_channel) (rw started refl) in
              let both : ok built ≡ ok client = sym good ∙ run in
              let same : built ≡ client = cc both in
              let (kept, positive) = positive_deadline b.request_limit deadline fine in
              record {
                channel_is = ap (λ c. c.channel) same;
                host_is = ap (λ c. c.client_host) same;
                ceiling_is = ap (λ c. c.file_ceiling) same;
                deadline_is = ap (λ c. c.deadline) same ∙ kept;
                deadline_positive = positive;
                limit_is = ap (λ c. c.decoding_limit) same;
              }
        ]
      ]

  -- A build succeeds only if a host was given, which parses and has no path, query or fragment, the
  -- connect timeout and the file ceiling, given or by default, are not zero, and the endpoint and its
  -- TLS configuration are accepted. The client then has the channel that was opened to this host with
  -- this timeout, the host and the ceiling, and the request timeout and the message limit that were
  -- set; the request timeout is not zero.
  pub build_ok :
      (b : RociaDbBuilder) (e : E) (built : BuiltClient M)
      → (build platform b e).0 ≡ ok built
      → (h : String) × (limit : Duration) × (ceiling : ℕ) × (channel : ℕ) × Checked platform b h
          limit ceiling
        × ((platform.connect h limit b.keep_alive e).0 ≡ ok channel)
        × Built b channel h ceiling built
  unfolding build
  build_ok b e built good = elim (Result-cases (settle platform b)) [
    | inr (x, bad) ↦
        let run : (build platform b e).0 ≡ err x = rw (bad, build) refl in cc (good, run)
    | inl ((h, limit, ceiling), settled) ↦
        let e' : E = (platform.connect h limit b.keep_alive e).1 in
        elim (Result-cases (platform.connect h limit b.keep_alive e).0) [
          | inr (s, down) ↦
              let run : (build platform b e).0
                  ≡ err (connection (text "failed to connect to upstream") (some s)) =
                rw (settled, build) (rw down refl) in
              cc (good, run)
          | inl (channel, up) ↦
              let run : (build platform b e).0
                  ≡ (build_on_channel platform b channel h limit ceiling e').0 =
                rw (settled, build) (rw up refl) in
              let made : Built b channel h ceiling built =
                build_on_channel-Built b channel h limit ceiling e' built (sym run ∙ good) in
              (
                h,
                limit,
                ceiling,
                channel,
                settle-Checked platform b h limit ceiling settled,
                up,
                made,
              )
        ]
  ]
