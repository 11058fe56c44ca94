-- ===== src/Build/Tests.antt =====
-- A build over a toolchain that keeps what it is told, and the documentation tables of `build.rs`.
use Prim.Native.String.{String, ◌++◌}
use text.Mathlib.Text.{starts_with}
use rociadb_core_sdk_rust.Prelude.{
  ℕ, ◌+◌, ◌≡◌, refl, Bool, true, false, ◌&&◌, ◌||◌, none, some, List, [], ◌∷◌, length, Result, ok,
  err,
}
use rociadb_core_sdk_rust.Prelude as Prelude
use rociadb_core_sdk_rust.Build.Docs.{docs, field_docs}
use rociadb_core_sdk_rust.Build.{Toolchain, main}
use rociadb_core_sdk_rust.Build.Settings.{Settings, Told}
use rociadb_core_sdk_rust.Build.Passes.{Built, main-Built}

abbrev World : Type 0
World = List (Settings × ℕ)

abbrev tools : Toolchain World String Settings ℕ ℕ
tools = record {
  configure = record { client = true; server = true; dir = none; types = []; fields = [] };
  build_server = λ b x. record x { server = b };
  build_client = λ b x. record x { client = b };
  out_dir = λ d x. record x { dir = some d };
  type_attribute = λ path text x. record x { types = Prelude.◌++◌ x.types ((path, text) ∷ []) };
  field_attribute = λ path text x. record x { fields = Prelude.◌++◌ x.fields ((path, text) ∷ []) };
  compile_fds = λ x fds w. (ok tt, Prelude.◌++◌ w ((x, fds) ∷ []));
  new_compiler = λ l w. (ok 0, w);
  include_source_info = λ b c. c;
  include_imports = λ b c. c + 1;
  open_files = λ l c w. (ok (c + length l), w);
  file_descriptor_set = λ c. c;
  env_var = λ n w. (ok "target", w);
  join = λ a b. a ++ ("/" ++ b);
  create_dir_all = λ d w. (ok tt, w);
  println = λ l w. (tt, w);
  debug_text = λ t. t;
}

abbrev told : Told tools
told = record {
  settings = λ x. x;
  configured = refl;
  server_told = λ b x. refl;
  client_told = λ b x. refl;
  dir_told = λ d x. refl;
  type_told = λ path text x. refl;
  field_told = λ path text x. refl;
  log = λ w. w;
  generates = λ x fds e u good. refl;
  fails = λ x fds e f bad. absurd (cc bad);
  new_compiler_apart = λ l e. refl;
  open_files_apart = λ l c e. refl;
  env_var_apart = λ n e. refl;
  create_dir_apart = λ d e. refl;
  println_apart = λ l e. refl;
}

main-Built_example : let (answer, e') = main tools [] in Built tools told [] e' answer
main-Built_example = main-Built tools told []

abbrev within : String → List (String × String) → Bool
within path [] = false
within path ((message, doc) ∷ rest) = starts_with path (message ++ ".") || within path rest

abbrev all_within : List (String × String) → List (String × String) → Bool
all_within messages [] = true
all_within messages ((path, doc) ∷ rest) = within path messages && all_within messages rest

-- Every field that is documented is a field of a message that is documented.
fields_of_documented : all_within docs field_docs ≡ true
fields_of_documented = refl
