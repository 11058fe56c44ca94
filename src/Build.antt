-- ===== src/Build.antt =====
-- `build.rs`: the two code generations of a build, the client's and the test server's.
--
-- The compiler of protocol files (`protox`), the code generator (`tonic_prost_build`), the file system
-- and the environment are the record `Toolchain`; `debug_text` is the `Debug` form of a text.
pub mod Docs
pub mod Settings
pub mod Passes
mod Tests
use Prim.Native.String.{String, ◌++◌}
use rociadb_core_sdk_rust.Prelude.Effect.{◌>>=◌, ◌>>◌, pure, always}
use rociadb_core_sdk_rust.Prelude.{Bool, true, false, List, [], ◌∷◌, Result, Action}
use rociadb_core_sdk_rust.Build.Docs.{docs, field_docs}

abbrev pub test_server_out_dir : String
test_server_out_dir = "test_server"

-- `Failure` is `Box<dyn std::error::Error>`.
pub record Toolchain (E Failure Builder Compiler Fds : Type 0) : Type 0 where
  pub configure : Builder
  pub build_server : Bool → Builder → Builder
  pub build_client : Bool → Builder → Builder
  pub out_dir : String → Builder → Builder
  pub type_attribute : String → String → Builder → Builder
  pub field_attribute : String → String → Builder → Builder
  pub compile_fds : Builder → Fds → Action E (Result Failure (Unit {0}))
  pub new_compiler : List String → Action E (Result Failure Compiler)
  pub include_source_info : Bool → Compiler → Compiler
  pub include_imports : Bool → Compiler → Compiler
  pub open_files : List String → Compiler → Action E (Result Failure Compiler)
  pub file_descriptor_set : Compiler → Fds
  pub env_var : String → Action E (Result Failure String)
  pub join : String → String → String
  pub create_dir_all : String → Action E (Result Failure (Unit {0}))
  pub println : String → Action E (Unit {0})
  pub debug_text : String → String

module _ {E Failure Builder Compiler Fds : Type 0}
    (tools : Toolchain E Failure Builder Compiler Fds) where
  abbrev pub doc_attribute : String → String
  doc_attribute doc = "#[doc = " ++ (tools.debug_text doc ++ "]")

  abbrev pub with_type_docs : List (String × String) → Builder → Builder
  with_type_docs [] builder = builder
  with_type_docs ((path, doc) ∷ rest) builder =
      with_type_docs rest (tools.type_attribute path (doc_attribute doc) builder)

  abbrev pub with_field_docs : List (String × String) → Builder → Builder
  with_field_docs [] builder = builder
  with_field_docs ((path, doc) ∷ rest) builder =
      with_field_docs rest (tools.field_attribute path (doc_attribute doc) builder)

  unfoldable pub documented : Builder → Builder
  documented builder = with_field_docs field_docs (
      with_type_docs docs
        (tools.type_attribute "." "#[derive(serde::Serialize, serde::Deserialize)]" builder))

  abbrev pub client_pass : Builder
  client_pass = documented (tools.build_server false tools.configure)

  abbrev pub server_pass : String → Builder
  server_pass dir =
      documented
        (tools.out_dir dir (tools.build_server true (tools.build_client false tools.configure)))

  unfoldable pub main : Action E (Result Failure (Unit {0}))
  main = do
    compiler ← tools.new_compiler ("proto" ∷ [])
    opened ←
        tools.open_files ("proto/upstream/v1/upstream.proto" ∷ [])
          (tools.include_imports true (tools.include_source_info false compiler))
    tools.compile_fds client_pass (tools.file_descriptor_set opened)
    out ← tools.env_var "OUT_DIR"
    tools.create_dir_all (tools.join out test_server_out_dir)
    tools.compile_fds (server_pass (tools.join out test_server_out_dir))
        (tools.file_descriptor_set opened)
    always (tools.println "cargo:rerun-if-changed=proto")
    always (tools.println "cargo:rerun-if-changed=build.rs")
    pure tt
