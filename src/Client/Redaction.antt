-- ===== src/Client/Redaction.antt =====
-- The hand-written `Debug` of `src/lib.rs`, for the builder's credentials and for the client: what a
-- log can show of them.
use Prim.Native.String.{String}
use rociadb_core_sdk_rust.Prelude.{◌≡◌, refl, Bool, true, false, Option, List, [], ◌∷◌, is_some}
use rociadb_core_sdk_rust.Client.{RociaDbClient}
use rociadb_core_sdk_rust.Client.Builder.{BuilderAuthConfig, enabled, disabled}

-- What `debug_struct` and `field` were told: a name, and the fields with their values' texts.
pub record Shown : Type 0 where
  pub name : String
  pub fields : List (String × String)

abbrev pub presence : Bool → String
presence true = "<set>"
presence false = "<unset>"

abbrev pub debug_auth : BuilderAuthConfig → Shown
debug_auth (enabled token_url client_id client_secret) = record {
  name = "Enabled";
  fields =
      ("token_url", presence (is_some token_url))
      ∷ ("client_id", presence (is_some client_id))
      ∷ ("client_secret", presence (is_some client_secret))
      ∷ [];
}
debug_auth disabled = record { name = "Disabled"; fields = [] }

-- The text of a Boolean.
abbrev shown_bool : Bool → String
shown_bool true = "true"
shown_bool false = "false"

abbrev pub debug_client : {W : Type 0} → RociaDbClient W → Shown
debug_client client = record {
  name = "RociaDbClient";
  fields = ("host", client.host) ∷ ("auth_enabled", shown_bool (is_some client.token_manager)) ∷ [];
}

-- Two sets of credentials of which the same ones are set are shown alike, whatever they are.
debug_auth-presence :
    (url url' id id' secret secret' : Option String)
    → is_some url ≡ is_some url'
    → is_some id ≡ is_some id'
    → is_some secret ≡ is_some secret'
    → debug_auth (enabled url id secret) ≡ debug_auth (enabled url' id' secret')
debug_auth-presence url url' id id' secret secret' u i s = rw (u, i, s) refl

-- Two clients of one host are shown alike if both have a token manager, whatever its token.
debug_client-host :
    {W W' : Type 0} (client : RociaDbClient W) (client' : RociaDbClient W')
    → client.host ≡ client'.host
    → is_some client.token_manager ≡ is_some client'.token_manager
    → debug_client client ≡ debug_client client'
debug_client-host client client' h t = rw (h, t) refl
