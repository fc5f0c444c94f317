-- ===== src/Server/Embedded.antt =====
-- Building a service from embedded bytes (src/server.rs, with src/wsdl/resolver.rs).
use soap_server.Prelude.{
  ℕ, suc, ◌≡◌, refl, sym, subst, Bytes, none, some, List, [], ◌∷◌, ◌++◌, All, contains, Result, ok,
  err,
}
use soap_server.Prelude.Run.{Run}
use soap_server.Xml.Dom.{Node}
use soap_server.Wsdl.Definitions.{WsdlImport, WsdlDefinition}
use soap_server.Wsdl.Parse.Document.{parse_wsdl}
use soap_server.Wsdl.Parse.Names.{WsdlError}
use soap_server.Wsdl.Resolved.{ResolvedWsdl}
use soap_server.Wsdl.Resolve.{
  Accumulated, display_wsdl_error, resolve_import, resolve_imports, resolve_wsdl_inner,
  resolve_wsdl,
}
use soap_server.Server.Builder.{ServerBuilder, wsdl_parse, load_wsdl}
use soap_server.Server.Loaders.{unsupported_import, no_op_loader, select_loader, build}

-- An import that names no location.
abbrev pub IsBare : WsdlImport → Type 0
IsBare import = import.location ≡ none

resolve_imports-unsupported :
    (inner : Bytes → Accumulated → Run WsdlError (ResolvedWsdl × Accumulated))
    (bare : List WsdlImport) (import : WsdlImport) (more : List WsdlImport) (location : Bytes)
    (root : WsdlDefinition) (acc : Accumulated)
    → All IsBare bare
    → import.location ≡ some location
    → acc.visited ≡ []
    → resolve_imports no_op_loader inner (bare ++ import ∷ more) root acc
      ≡ some (err (unsupported_import location))
unfolding resolve_imports resolve_import no_op_loader contains
resolve_imports-unsupported inner [] import more location root acc h l v =
    rw (l, v, resolve_imports, resolve_import) refl
resolve_imports-unsupported inner (b ∷ bare) import more location root acc (h, hs) l v =
    let rest = resolve_imports-unsupported inner bare import more location root acc hs l v in
    rw (h, resolve_import) rest

module _ (read : Bytes → Result Bytes Node) (utf8_message : Bytes → Bytes)
    (schemas_fuel types_fuel groups_fuel : ℕ) where
  resolve_wsdl-unsupported :
      (fuel : ℕ) (wsdl : Bytes) (d : WsdlDefinition) (bare : List WsdlImport) (import : WsdlImport)
      (more : List WsdlImport) (location : Bytes)
      → parse_wsdl read utf8_message wsdl ≡ ok d
      → d.imports ≡ bare ++ import ∷ more
      → All IsBare bare
      → import.location ≡ some location
      → resolve_wsdl no_op_loader read utf8_message schemas_fuel types_fuel groups_fuel
          (suc fuel)
          wsdl
          []
        ≡ some (err (unsupported_import location))
  unfolding resolve_wsdl resolve_wsdl_inner
  resolve_wsdl-unsupported fuel wsdl d bare import more location p i h l =
      let start : Accumulated = record {
        visited = [];
        already_loaded_schemas = [];
        types = [];
        element_type_map = [];
      } in
      let inner =
        resolve_wsdl_inner no_op_loader read utf8_message schemas_fuel types_fuel groups_fuel
          fuel in
      let refused =
        subst
          (λ is.
            resolve_imports no_op_loader inner is d start
            ≡ some (err (unsupported_import location)))
          (sym i) (resolve_imports-unsupported inner bare import more location d start h l refl) in
      rw (p, refused)

module _ {W : Type 0} (read_file : Bytes → Result Bytes Bytes) (read : Bytes → Result Bytes Node)
    (utf8_message to_lowercase : Bytes → Bytes)
    (imports_fuel schemas_fuel types_fuel groups_fuel : ℕ) where
  -- Building a service from embedded bytes without a loader fails with the text for an
  -- unsupported import of the first location that the document imports from, if the document
  -- parses and imports from one; imports without a location before it are passed over.
  pub embedded_import_refused :
      (b : ServerBuilder W) (now : ℕ) (wsdl : Bytes) (d : WsdlDefinition) (bare : List WsdlImport)
      (import : WsdlImport) (more : List WsdlImport) (location : Bytes)
      → b.wsdl_bytes ≡ some wsdl
      → b.custom_loader ≡ none
      → parse_wsdl read utf8_message wsdl ≡ ok d
      → d.imports ≡ bare ++ import ∷ more
      → All IsBare bare
      → import.location ≡ some location
      → build read_file read utf8_message to_lowercase
          (suc imports_fuel)
          schemas_fuel
          types_fuel
          groups_fuel
          b
          now
        ≡ some (err (wsdl_parse (display_wsdl_error (unsupported_import location))))
  unfolding build load_wsdl select_loader
  embedded_import_refused b now wsdl d bare import more location w c p i h l =
      let refused =
        resolve_wsdl-unsupported read utf8_message schemas_fuel types_fuel groups_fuel imports_fuel
          wsdl d bare import more location p i h l in
      rw (w, load_wsdl) (rw (c, select_loader) (rw refused))
