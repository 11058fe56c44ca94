-- ===== src/Build/Settings.antt =====
-- What the two code generations of `build.rs` are told.
use Prim.Native.String.{String}
use mathlib.Core.List.{append_assoc, append-nil}
use rociadb_core_sdk_rust.Prelude.{
  ◌≡◌, refl, sym, ap, ◌∙◌, Bool, true, false, Option, none, some, List, [], ◌∷◌, ◌++◌, map, ok, err,
}
use rociadb_core_sdk_rust.Build.Docs.{docs, field_docs}
use rociadb_core_sdk_rust.Build.{
  Toolchain, doc_attribute, with_type_docs, with_field_docs, documented, client_pass, server_pass,
}

-- What a code generation is told.
pub record Settings : Type 0 where
  pub client : Bool
  pub server : Bool
  pub dir : Option String
  pub types : List (String × String)
  pub fields : List (String × String)

-- How the generator's builder keeps what it is told, and which actions generate: `log` reads off a
-- world what was generated.
pub record Told {E Failure Builder Compiler Fds : Type 0}
    (tools : Toolchain E Failure Builder Compiler Fds) : Type 0 where
  pub settings : Builder → Settings
  pub configured :
      settings tools.configure
      ≡ record { client = true; server = true; dir = none; types = []; fields = [] }
  pub server_told :
      (b : Bool) (x : Builder)
      → settings (tools.build_server b x) ≡ record (settings x) { server = b }
  pub client_told :
      (b : Bool) (x : Builder)
      → settings (tools.build_client b x) ≡ record (settings x) { client = b }
  pub dir_told :
      (d : String) (x : Builder)
      → settings (tools.out_dir d x) ≡ record (settings x) { dir = some d }
  pub type_told :
      (path text : String) (x : Builder)
      → settings (tools.type_attribute path text x)
        ≡ record (settings x) { types = (settings x).types ++ (path, text) ∷ [] }
  pub field_told :
      (path text : String) (x : Builder)
      → settings (tools.field_attribute path text x)
        ≡ record (settings x) { fields = (settings x).fields ++ (path, text) ∷ [] }
  pub log : E → List (Settings × Fds)
  pub generates :
      (x : Builder) (fds : Fds) (e : E) (u : Unit {0})
      → (tools.compile_fds x fds e).0 ≡ ok u
      → log (tools.compile_fds x fds e).1 ≡ log e ++ (settings x, fds) ∷ []
  pub fails :
      (x : Builder) (fds : Fds) (e : E) (f : Failure)
      → (tools.compile_fds x fds e).0 ≡ err f
      → log (tools.compile_fds x fds e).1 ≡ log e
  pub new_compiler_apart : (l : List String) (e : E) → log (tools.new_compiler l e).1 ≡ log e
  pub open_files_apart :
      (l : List String) (c : Compiler) (e : E) → log (tools.open_files l c e).1 ≡ log e
  pub env_var_apart : (n : String) (e : E) → log (tools.env_var n e).1 ≡ log e
  pub create_dir_apart : (d : String) (e : E) → log (tools.create_dir_all d e).1 ≡ log e
  pub println_apart : (l : String) (e : E) → log (tools.println l e).1 ≡ log e

module _ {E Failure Builder Compiler Fds : Type 0}
    (tools : Toolchain E Failure Builder Compiler Fds) (told : Told tools) where
  -- A table of documentation as attributes.
  abbrev pub attributes : List (String × String) → List (String × String)
  attributes table = map (λ entry. (entry.0, doc_attribute tools entry.1)) table

  -- The derives, and the documentation of the messages.
  abbrev pub type_attributes : List (String × String)
  type_attributes = (".", "#[derive(serde::Serialize, serde::Deserialize)]") ∷ attributes docs

  with_type_docs-settings :
      (table : List (String × String)) (x : Builder)
      → told.settings (with_type_docs tools table x)
        ≡ record (told.settings x) { types = (told.settings x).types ++ attributes table }
  with_type_docs-settings [] x =
      ap (λ l. record (told.settings x) { types = l }) (sym (append-nil (told.settings x).types))
  with_type_docs-settings ((path, doc) ∷ rest) x =
      with_type_docs-settings rest (tools.type_attribute path (doc_attribute tools doc) x)
      ∙ rw (told.type_told path (doc_attribute tools doc) x) (
          ap (λ l. record (told.settings x) { types = l })
            (append_assoc (told.settings x).types ((path, doc_attribute tools doc) ∷ [])
              (attributes rest)))

  with_field_docs-settings :
      (table : List (String × String)) (x : Builder)
      → told.settings (with_field_docs tools table x)
        ≡ record (told.settings x) { fields = (told.settings x).fields ++ attributes table }
  with_field_docs-settings [] x =
      ap (λ l. record (told.settings x) { fields = l }) (sym (append-nil (told.settings x).fields))
  with_field_docs-settings ((path, doc) ∷ rest) x =
      with_field_docs-settings rest (tools.field_attribute path (doc_attribute tools doc) x)
      ∙ rw (told.field_told path (doc_attribute tools doc) x) (
          ap (λ l. record (told.settings x) { fields = l })
            (append_assoc (told.settings x).fields ((path, doc_attribute tools doc) ∷ [])
              (attributes rest)))

  documented-settings :
      (x : Builder)
      → told.settings (documented tools x) ≡ record (told.settings x) {
        types = (told.settings x).types ++ type_attributes;
        fields = (told.settings x).fields ++ attributes field_docs;
      }
  unfolding documented
  documented-settings x =
      let derive : String = "#[derive(serde::Serialize, serde::Deserialize)]" in
      let derived : Builder = tools.type_attribute "." derive x in
      with_field_docs-settings field_docs (with_type_docs tools docs derived)
      ∙ rw (with_type_docs-settings docs derived, told.type_told "." derive x)
          (ap
            (λ l. record (told.settings x) {
              types = l;
              fields = (told.settings x).fields ++ attributes field_docs;
            })
            (append_assoc (told.settings x).types ((".", derive) ∷ []) (attributes docs)))

  abbrev pub client_settings : Settings
  client_settings = record {
    client = true;
    server = false;
    dir = none;
    types = type_attributes;
    fields = attributes field_docs;
  }

  abbrev pub server_settings : String → Settings
  server_settings d = record {
    client = false;
    server = true;
    dir = some d;
    types = type_attributes;
    fields = attributes field_docs;
  }

  pub client_pass-settings : told.settings (client_pass tools) ≡ client_settings
  client_pass-settings =
      documented-settings (tools.build_server false tools.configure)
      ∙ rw (told.server_told false tools.configure, told.configured) refl

  pub server_pass-settings : (d : String) → told.settings (server_pass tools d) ≡ server_settings d
  server_pass-settings d =
      documented-settings
        (tools.out_dir d (tools.build_server true (tools.build_client false tools.configure)))
      ∙ rw
          (
            told.dir_told d (tools.build_server true (tools.build_client false tools.configure)),
            told.server_told true (tools.build_client false tools.configure),
            told.client_told false tools.configure,
            told.configured,
          )
          refl
