-- ===== src/Client/Builder/Checks.antt =====
-- What `build` of `src/lib.rs` has checked when it opens a connection.
use Prim.Native.String.{String}
use rociadb_core_sdk_rust.Prelude.{
  ℕ, ◌≡◌, refl, ap, ◌≢◌, inl, inr, Option, none, some, true, false, arith, Bool-cases, Option-cases,
  Result, Result-cases, ok, err, unwrap_or,
}
use rociadb_core_sdk_rust.Duration.{Duration}
use rociadb_core_sdk_rust.Error.{Source, config_context}
use rociadb_core_sdk_rust.Client.{
  default_connect_timeout, default_max_file_bytes, resolve_connect_timeout, resolve_max_file_bytes,
}
use rociadb_core_sdk_rust.Client.Builder.{
  RociaDbBuilder, Platform, has_fragment, is_root, required, no_query, validate_host_path, settle,
}

required_ok : (o : Option String) (m a : String) → required o m ≡ ok a → o ≡ some a
required_ok none m a given = absurd (cc given)
required_ok (some x) m a given = ground arith

config_ok :
    {A : Type 0} (m : String) (r : Result Source A) (a : A) → config_context m r ≡ ok a → r ≡ ok a
config_ok m (ok x) a fine = let same : x ≡ a = cc fine in ap ok same
config_ok m (err x) a fine = absurd (cc fine)

connect_limit_ok :
    (o : Option Duration) (limit : Duration)
    → resolve_connect_timeout o ≡ ok limit
    → (unwrap_or o default_connect_timeout ≡ limit) × (limit ≢ 0)
connect_limit_ok o limit fine = (ground arith, λ zero_limit. ground arith)

ceiling_ok :
    (o : Option ℕ) (ceiling : ℕ)
    → resolve_max_file_bytes o ≡ ok ceiling
    → (unwrap_or o default_max_file_bytes ≡ ceiling) × (ceiling ≢ 0)
ceiling_ok o ceiling fine = (ground arith, λ zero_ceiling. ground arith)

no_query_ok :
    {E M : Type 0} (platform : Platform E M) (query : Option String)
    → no_query platform query ≡ ok tt
    → query ≡ none
no_query_ok platform none fine = refl
no_query_ok platform (some q) fine = absurd (cc fine)

module _ {E M : Type 0} (platform : Platform E M) where
  -- The settings that a connection is opened with are all in order.
  pub record Checked (b : RociaDbBuilder) (h : String) (limit : Duration) (ceiling : ℕ)
      : Type 0 where
    pub host_given : b.upstream_host ≡ some h
    pub without_fragment : has_fragment h ≡ false
    pub path : String
    pub parsed : platform.parse_uri h ≡ ok (path, none)
    pub without_path : is_root path ≡ true
    pub limit_is : unwrap_or b.connect_limit default_connect_timeout ≡ limit
    pub limit_positive : limit ≢ 0
    pub bytes_are : unwrap_or b.file_limit default_max_file_bytes ≡ ceiling
    pub ceiling_positive : ceiling ≢ 0
    pub endpoint : platform.from_shared h ≡ ok tt
    pub tls_accepted : platform.configure_tls b.tls ≡ ok tt

  host_path_ok :
      (h : String)
      → validate_host_path platform h ≡ ok tt
      → (has_fragment h ≡ false)
        × (path : String) × (platform.parse_uri h ≡ ok (path, none))
        × (is_root path ≡ true)
  unfolding validate_host_path
  host_path_ok h fine = elim (Bool-cases (has_fragment h)) [
    | inl marked ↦ absurd (ground arith)
    | inr plain ↦ elim (Result-cases (platform.parse_uri h)) [
      | inr (x, bad) ↦ absurd (ground arith)
      | inl ((path, query), parsed) ↦ elim (Bool-cases (is_root path)) [
        | inr deep ↦ absurd (ground arith)
        | inl root ↦ elim (Option-cases query) [
          | inl clean ↦ (plain, path, rw clean at parsed, root)
          | inr (q, asked) ↦ absurd (ground arith)
        ]
      ]
    ]
  ]

  in_order :
      (b : RociaDbBuilder) (h : String) (limit : Duration) (ceiling : ℕ)
      → b.upstream_host ≡ some h
      → validate_host_path platform h ≡ ok tt
      → resolve_connect_timeout b.connect_limit ≡ ok limit
      → resolve_max_file_bytes b.file_limit ≡ ok ceiling
      → platform.from_shared h ≡ ok tt
      → platform.configure_tls b.tls ≡ ok tt
      → Checked b h limit ceiling
  in_order b h limit ceiling given valid limited sized shared secured =
      let (plain, path, parsed, root) = host_path_ok h valid in
      let (limit_is, limit_positive) = connect_limit_ok b.connect_limit limit limited in
      let (bytes_are, ceiling_positive) = ceiling_ok b.file_limit ceiling sized in
      record {
        host_given = given;
        without_fragment = plain;
        path = path;
        parsed = parsed;
        without_path = root;
        limit_is = limit_is;
        limit_positive = limit_positive;
        bytes_are = bytes_are;
        ceiling_positive = ceiling_positive;
        endpoint = shared;
        tls_accepted = secured;
      }

  -- What `settle` lets pass has been checked.
  pub settle-Checked :
      (b : RociaDbBuilder) (h : String) (limit : Duration) (ceiling : ℕ)
      → settle platform b ≡ ok (h, limit, ceiling)
      → Checked b h limit ceiling
  unfolding settle
  settle-Checked b h limit ceiling fine = elim (Option-cases b.upstream_host) [
    | inl missing ↦ absurd (ground arith)
    | inr (h', given) ↦ elim (Result-cases (validate_host_path platform h')) [
      | inr (x, bad) ↦ absurd (ground arith)
      | inl (u, valid) ↦ elim (Result-cases (resolve_connect_timeout b.connect_limit)) [
        | inr (x, bad) ↦ absurd (ground arith)
        | inl (limit', limited) ↦ elim (Result-cases (resolve_max_file_bytes b.file_limit)) [
          | inr (x, bad) ↦ absurd (ground arith)
          | inl (ceiling', sized) ↦ elim (Result-cases (platform.from_shared h')) [
            | inr (x, bad) ↦ absurd (ground arith)
            | inl (u', shared) ↦ elim (Result-cases (platform.configure_tls b.tls)) [
              | inr (x, bad) ↦ absurd (ground arith)
              | inl (u'', secured) ↦
                  let same_host : h ≡ h' = ground arith in
                  let same_limit : limit ≡ limit' = ground arith in
                  let same_ceiling : ceiling ≡ ceiling' = ground arith in
                  rw (same_host, same_limit, same_ceiling)
                    (in_order b h' limit' ceiling' given valid limited sized shared secured)
            ]
          ]
        ]
      ]
    ]
  ]
