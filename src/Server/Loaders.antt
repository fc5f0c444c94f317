-- ===== src/Server/Loaders.antt =====
-- The loaders of imported documents, and `ServerBuilder::build` as a whole (src/server.rs). Reading
-- a file, and the readers of other crates, are arguments. A path is the list of its components;
-- `components`, `parent` and `join` do what `std::path` does on Unix.
use soap_server.Prelude.{
  ℕ, Bytes, bytes, Bool, Option, none, some, List, [], ◌∷◌, ◌++◌, str_eq, ◌==◌, if◌then◌else◌,
  Result, err, map_err, nat_beq,
}
use soap_server.Prelude.Run.{Run, ◌>>=◌, map_failure}
use soap_server.Xml.Dom.{Node}
use soap_server.Wsdl.Resolved.{ResolvedWsdl}
use soap_server.Wsdl.Parse.Names.{WsdlError, malformed_xml}
use soap_server.Wsdl.Resolve.{WsdlLoader, display_wsdl_error, resolve_wsdl}
use soap_server.Wssec.NonceCache.{NonceCache}
use soap_server.Server.Paths.{Component, root_dir, cur_dir, parent_dir, normal, normalize_path}
use soap_server.Server.Service.{SoapService}
use soap_server.Server.Builder.{ServerBuilder, BuildError, wsdl_parse, load_wsdl, build_resolved}

-- The parts between slashes, with the part so far.
unfoldable pub segments : Bytes → Bytes → List Bytes
segments [] part = part ∷ []
segments (c ∷ s) part =
    let rest = segments s [] in
    let more = segments s (part ++ c ∷ []) in if nat_beq c b'/' then part ∷ rest else more

-- Empty parts and `.` are no components, but for a `.` at the start.
unfoldable pub plain_components : List Bytes → List Component
plain_components [] = []
plain_components (part ∷ parts) =
    let rest = plain_components parts in
    if part == []
    then rest
    else if part == bytes "."
    then rest
    else if part == bytes ".."
    then parent_dir ∷ rest
    else normal part ∷ rest

abbrev relative_components : List Bytes → List Component
relative_components [] = []
relative_components (part ∷ parts) =
    if part == bytes "." then cur_dir ∷ plain_components parts else plain_components (part ∷ parts)

abbrev after_root : Bool → Bytes → List Component
after_root rooted path =
    if rooted
    then root_dir ∷ plain_components (segments path [])
    else relative_components (segments path [])

-- `Path::components`
unfoldable pub components : Bytes → List Component
components [] = []
components (c ∷ s) = after_root (nat_beq c b'/') (c ∷ s)

-- `Path::parent`
unfoldable pub parent : List Component → Option (List Component)
parent [] = none
parent (root_dir ∷ []) = none
parent (c ∷ []) = some []
parent (c ∷ d ∷ rest) = elim (parent (d ∷ rest)) [
  | none ↦ some (c ∷ [])
  | some front ↦ some (c ∷ front)
]

-- `Path::join`: a location with a root replaces the base.
unfoldable pub join : List Component → List Component → List Component
join base (root_dir ∷ rest) = root_dir ∷ rest
join base location = base ++ location

abbrev separated : Bytes → List Component → Bytes → Bytes
separated base [] name = name
separated base (root_dir ∷ rest) name = base ++ name
separated base (c ∷ rest) name = base ++ bytes "/" ++ name

-- The text of a path that `PathBuf::push` made, its last component first.
unfoldable pub render : List Component → Bytes
render [] = []
render (root_dir ∷ path) = bytes "/"
render (cur_dir ∷ path) = separated (render path) path (bytes ".")
render (parent_dir ∷ path) = separated (render path) path (bytes "..")
render (normal name ∷ path) = separated (render path) path name

abbrev pub unsupported_import : Bytes → WsdlError
unsupported_import location =
    malformed_xml
      (bytes "External WSDL import '" ++ location ++ bytes "' not supported in embedded mode")

-- `NoOpLoader`
unfoldable pub no_op_loader : WsdlLoader
no_op_loader location = err (unsupported_import location)

abbrev failed_load : Bytes → Bytes → Bytes → WsdlError
failed_load location path e = malformed_xml (
    bytes "Failed to load WSDL import '"
    ++ location
    ++ bytes "' from '"
    ++ path
    ++ bytes "': "
    ++ e)

-- `FileWsdlLoader`, with the components of its base directory.
unfoldable pub file_loader : (Bytes → Result Bytes Bytes) → List Component → WsdlLoader
file_loader read_file base location =
    let path = render (normalize_path (join base (components location))) in
    map_err (failed_load location path) (read_file path)

abbrev base_of : Option (List Component) → List Component
base_of none = cur_dir ∷ []
base_of (some front) = front

-- The selection of the loader.
unfoldable pub select_loader :
    (Bytes → Result Bytes Bytes) → Option WsdlLoader → Option Bytes → WsdlLoader
select_loader read_file (some custom) file = custom
select_loader read_file none (some file) =
    file_loader read_file (base_of (parent (components file)))
select_loader read_file none none = no_op_loader

module _ (read_file : Bytes → Result Bytes Bytes) (read : Bytes → Result Bytes Node)
    (utf8_message to_lowercase : Bytes → Bytes)
    (imports_fuel schemas_fuel types_fuel groups_fuel : ℕ) where
  -- Step 2.
  abbrev resolve_with : WsdlLoader → Bytes → Run BuildError ResolvedWsdl
  resolve_with loader wsdl =
      map_failure (λ e. wsdl_parse (display_wsdl_error e))
        (resolve_wsdl loader read utf8_message schemas_fuel types_fuel groups_fuel imports_fuel wsdl
          [])

  -- The service, and its nonce cache as it is at the instant `now`.
  unfoldable pub build :
      {W : Type 0} → ServerBuilder W → ℕ → Run BuildError (SoapService W × NonceCache)
  build b now = do
    (wsdl, file) ← some (load_wsdl read_file b.wsdl_bytes b.wsdl_path)
    resolved ← resolve_with (select_loader read_file b.custom_loader file) wsdl
    some (build_resolved to_lowercase b wsdl resolved now)
