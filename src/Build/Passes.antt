-- ===== src/Build/Passes.antt =====
-- What a run of `build.rs` generates: the client and the test server, from one set of descriptors and
-- with the same attributes.
use Prim.Native.String.{String}
use mathlib.Core.List.{append_assoc}
use rociadb_core_sdk_rust.Prelude.Effect.{◌>>=◌, ◌>>◌, always, pure, bind_cases}
use rociadb_core_sdk_rust.Prelude.{
  ◌≡◌, refl, ◌∙◌, true, false, List, [], ◌∷◌, ◌++◌, Result, Action, ok, err,
}
use rociadb_core_sdk_rust.Build.Settings.{
  Settings, Told, client_settings, server_settings, client_pass-settings, server_pass-settings,
}
use rociadb_core_sdk_rust.Build.{Toolchain, test_server_out_dir, client_pass, server_pass, main}

module _ {E Failure Builder Compiler Fds : Type 0}
    (tools : Toolchain E Failure Builder Compiler Fds) (told : Told tools) where
  -- How a build may go.
  pub data Built (before after : List (Settings × Fds)) (answer : Result Failure (Unit {0}))
      : Type 0 where
    neither : (x : Failure) → answer ≡ err x → after ≡ before → Built before after answer
    client_only :
        (x : Failure) (fds : Fds)
        → answer ≡ err x
        → after ≡ before ++ (client_settings tools told, fds) ∷ []
        → Built before after answer
    both :
        (d : String) (fds : Fds) (e : E)
        → (tools.env_var "OUT_DIR" e).0 ≡ ok d
        → answer ≡ ok tt
        → after
          ≡ before
            ++ (client_settings tools told, fds)
              ∷ (server_settings tools told (tools.join d test_server_out_dir), fds)
              ∷ []
        → Built before after answer

  abbrev last_lines : Action E (Result Failure (Unit {0}))
  last_lines =
      always (tools.println "cargo:rerun-if-changed=proto")
      >> (always (tools.println "cargo:rerun-if-changed=build.rs") >> pure tt)

  last_lines-log : (e : E) → ((last_lines e).0 ≡ ok tt) × (told.log (last_lines e).1 ≡ told.log e)
  last_lines-log e =
      let e' : E = (tools.println "cargo:rerun-if-changed=proto" e).1 in
      (
        refl,
        told.println_apart "cargo:rerun-if-changed=build.rs" e'
            ∙ told.println_apart "cargo:rerun-if-changed=proto" e,
      )

  -- From the end of the first pass on.
  abbrev server_part : Fds → Action E (Result Failure (Unit {0}))
  server_part fds = tools.env_var "OUT_DIR" >>= λ out.
      tools.create_dir_all (tools.join out test_server_out_dir)
      >> (tools.compile_fds (server_pass tools (tools.join out test_server_out_dir)) fds
          >> last_lines)

  server_part-Built :
      (before : List (Settings × Fds)) (fds : Fds) (e : E)
      → told.log e ≡ before ++ (client_settings tools told, fds) ∷ []
      → let (answer, e') = server_part fds e in Built before (told.log e') answer
  server_part-Built before fds e first =
      let P : Result Failure (Unit {0}) × E → Type 0 = λ r. Built before (told.log r.1) r.0 in
      let dir : String → String = λ out. tools.join out test_server_out_dir in
      let compile : String → Action E (Result Failure (Unit {0})) =
        λ out. tools.compile_fds (server_pass tools (dir out)) fds in
      bind_cases P (tools.env_var "OUT_DIR")
        (λ out. tools.create_dir_all (dir out) >> (compile out >> last_lines)) e
        (λ x bad. client_only x fds refl (told.env_var_apart "OUT_DIR" e ∙ first))
        (λ out good.
          let e1 : E = (tools.env_var "OUT_DIR" e).1 in
          let same1 : told.log e1 ≡ before ++ (client_settings tools told, fds) ∷ [] =
            told.env_var_apart "OUT_DIR" e ∙ first in
          bind_cases P (tools.create_dir_all (dir out)) (λ u. compile out >> last_lines) e1
            (λ x bad. client_only x fds refl (told.create_dir_apart (dir out) e1 ∙ same1))
            (λ u made.
              let e2 : E = (tools.create_dir_all (dir out) e1).1 in
              let same2 : told.log e2 ≡ before ++ (client_settings tools told, fds) ∷ [] =
                told.create_dir_apart (dir out) e1 ∙ same1 in
              bind_cases P (compile out) (λ v. last_lines) e2
                (λ x bad.
                  client_only x fds refl
                    (told.fails (server_pass tools (dir out)) fds e2 x bad ∙ same2))
                (λ v done.
                  let e3 : E = (compile out e2).1 in
                  both out fds e good (last_lines-log e3).0 (
                    (last_lines-log e3).1
                    ∙ told.generates (server_pass tools (dir out)) fds e2 v done
                    ∙ rw (same2, server_pass-settings tools told (dir out))
                        (append_assoc before ((client_settings tools told, fds) ∷ [])
                          ((server_settings tools told (dir out), fds) ∷ []))))))

  -- A build generates nothing and fails; or it generates the client and fails; or it succeeds, and has
  -- generated the client alone and then the server alone, the server into the directory
  -- `test_server` of the one that the variable `OUT_DIR` was read to name, both from the same descriptors and both
  -- with the derives and with all of the documentation.
  pub main-Built :
      (e : E) → let (answer, e') = main tools e in Built (told.log e) (told.log e') answer
  unfolding main
  main-Built e =
      let P : Result Failure (Unit {0}) × E → Type 0 = λ r. Built (told.log e) (told.log r.1) r.0 in
      let source : List String = "proto/upstream/v1/upstream.proto" ∷ [] in
      let compile : Compiler → Action E (Result Failure (Unit {0})) =
        λ opened. tools.compile_fds (client_pass tools) (tools.file_descriptor_set opened) in
      let ready : Compiler → Compiler =
        λ compiler. tools.include_imports true (tools.include_source_info false compiler) in
      bind_cases P (tools.new_compiler ("proto" ∷ []))
        (λ compiler. tools.open_files source (ready compiler) >>= λ opened.
          compile opened >> server_part (tools.file_descriptor_set opened))
        e (λ x bad. neither x refl (told.new_compiler_apart ("proto" ∷ []) e))
        (λ compiler good.
          let e1 : E = (tools.new_compiler ("proto" ∷ []) e).1 in
          let same1 : told.log e1 ≡ told.log e = told.new_compiler_apart ("proto" ∷ []) e in
          bind_cases P (tools.open_files source (ready compiler))
            (λ opened. compile opened >> server_part (tools.file_descriptor_set opened)) e1
            (λ x bad. neither x refl (told.open_files_apart source (ready compiler) e1 ∙ same1))
            (λ opened good.
              let e2 : E = (tools.open_files source (ready compiler) e1).1 in
              let fds : Fds = tools.file_descriptor_set opened in
              let same2 : told.log e2 ≡ told.log e =
                told.open_files_apart source (ready compiler) e1 ∙ same1 in
              bind_cases P (compile opened) (λ v. server_part fds) e2
                (λ x bad. neither x refl (told.fails (client_pass tools) fds e2 x bad ∙ same2))
                (λ v done. server_part-Built (told.log e) fds (compile opened e2).1 (
                  told.generates (client_pass tools) fds e2 v done
                  ∙ rw (same2, client_pass-settings tools told) refl))))
