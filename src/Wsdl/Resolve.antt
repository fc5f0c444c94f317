-- ===== src/Wsdl/Resolve.antt =====
-- The resolution of a WSDL document with its imports and schemas (src/wsdl/resolver.rs). An
-- imported document takes a unit of fuel; the other fuels are those of `resolve_schema`.
use soap_server.Prelude.{
  ℕ, zero, suc, Bytes, bytes, Option, none, some, List, [], ◌∷◌, ◌++◌, Map, or_insert, contains,
  insert_set, str_eq, Eq, if◌then◌else◌, Result, ok, err, ok_or, map_err, from_utf8,
}
use soap_server.Prelude.Run.{Run, ◌>>=◌, done, map_failure}
use soap_server.Qname.{QName, qname_eq}
use soap_server.Xml.Dom.{Node}
use soap_server.Wsdl.Definitions.{WsdlImport, WsdlDefinition}
use soap_server.Wsdl.Resolved.{ResolvedWsdl}
use soap_server.Wsdl.Parse.Names.{WsdlError, malformed_xml, missing_attribute, unknown_namespace}
use soap_server.Wsdl.Parse.Document.{parse_wsdl}
use soap_server.Xsd.Types.{
  XsdType, XsdElement, no_inline, inline, fields, inline_type, TypeRegistry, new, insert_type,
}
use soap_server.Xsd.Resolve.{SchemaError, unknown_ref, cycle_detected}
use soap_server.Xsd.Parse.Schema.{RawSchema, parse_schema}
use soap_server.Xsd.Registry.{resolve_schema}

-- The `Display` of the errors, which other errors quote.
abbrev pub display_wsdl_error : WsdlError → Bytes
display_wsdl_error (malformed_xml m) = bytes "Malformed WSDL XML: " ++ m
display_wsdl_error (missing_attribute m) = bytes "Missing required attribute: " ++ m
display_wsdl_error (unknown_namespace m) = bytes "Unknown namespace prefix: " ++ m

abbrev pub display_schema_error : SchemaError → Bytes
display_schema_error (SchemaError.malformed_xml m) = bytes "Malformed XML: " ++ m
display_schema_error (unknown_ref m) = bytes "Unknown reference: " ++ m
display_schema_error (cycle_detected m) = bytes "Cycle detected: " ++ m

-- `WsdlLoader`
abbrev pub WsdlLoader : Type 0
WsdlLoader = Bytes → Result WsdlError Bytes

-- What the calls for imported documents share.
pub record Accumulated : Type 0 where
  pub visited : List Bytes
  pub already_loaded_schemas : List Bytes
  pub types : Map QName XsdType
  pub element_type_map : Map QName QName

-- `entry(k).or_insert(v)` for each entry of a map.
unfoldable pub merge_missing {ℓ κ} :
    {K : Type ℓ} {V : Type κ} ⦃e : Eq K⦄ → Map K V → Map K V → Map K V
merge_missing [] m = m
merge_missing ((k, v) ∷ more) m = merge_missing more (or_insert k v m)

unfoldable pub merge_definition : WsdlDefinition → WsdlDefinition → WsdlDefinition
merge_definition imported root = record root {
  messages = merge_missing imported.messages root.messages;
  port_types = merge_missing imported.port_types root.port_types;
  bindings = merge_missing imported.bindings root.bindings;
  services = merge_missing imported.services root.services;
}

abbrev map_element : QName → XsdElement → Map QName QName → Map QName QName
map_element name el m = elim (inline_type el) [
  | inline ty ↦ or_insert name name m
  | no_inline ↦ elim (fields el).type_ref [ some ty ↦ or_insert name ty m | none ↦ m ]
]

-- The loop over a schema's top-level elements.
unfoldable pub map_elements : Map QName XsdElement → Map QName QName → Map QName QName
map_elements [] m = m
map_elements ((name, el) ∷ els) m = map_elements els (map_element name el m)

unfoldable pub snapshot : Map QName XsdType → TypeRegistry → TypeRegistry
snapshot [] r = r
snapshot ((name, ty) ∷ types) r = snapshot types (insert_type name ty r)

module _ (load : WsdlLoader) where
  -- An import that is not yet visited.
  abbrev pub import_document :
      (Bytes → Accumulated → Run WsdlError (ResolvedWsdl × Accumulated))
      → Bytes
      → WsdlDefinition
      → Accumulated
      → Run WsdlError (WsdlDefinition × Accumulated)
  import_document inner location root acc = do
    imported_bytes ← some (load location)
    (imported, next) ←
        inner imported_bytes (record acc { visited = insert_set location acc.visited })
    done (merge_definition imported.definition root, next)

  -- One import; `inner` resolves the document that is loaded.
  unfoldable pub resolve_import :
      (Bytes → Accumulated → Run WsdlError (ResolvedWsdl × Accumulated))
      → Option Bytes
      → WsdlDefinition
      → Accumulated
      → Run WsdlError (WsdlDefinition × Accumulated)
  resolve_import inner none root acc = done (root, acc)
  resolve_import inner (some location) root acc =
      if contains acc.visited location
      then done (root, acc)
      else import_document inner location root acc

  unfoldable pub resolve_imports :
      (Bytes → Accumulated → Run WsdlError (ResolvedWsdl × Accumulated))
      → List WsdlImport
      → WsdlDefinition
      → Accumulated
      → Run WsdlError (WsdlDefinition × Accumulated)
  resolve_imports inner [] root acc = done (root, acc)
  resolve_imports inner (import ∷ imports) root acc = do
    (merged, next) ← resolve_import inner import.location root acc
    resolve_imports inner imports merged next

-- `WsdlSchemaLoaderAdapter`
unfoldable pub load_schema :
    WsdlLoader → (Bytes → Bytes) → Option Bytes → Bytes → Result SchemaError Bytes
load_schema load utf8_message namespace location = elim (load location) [
  | err e ↦ err (
      unknown_ref (bytes "WsdlLoader error for " ++ location ++ bytes ": " ++ display_wsdl_error e))
  | ok content ↦
      ok_or (SchemaError.malformed_xml (bytes "UTF-8 error: " ++ utf8_message content))
        (from_utf8 content)
]

abbrev schema_error : Bytes → SchemaError → WsdlError
schema_error what e = malformed_xml (what ++ display_schema_error e)

abbrev pub parse_inline : (Bytes → Result Bytes Node) → Bytes → Run WsdlError RawSchema
parse_inline read text = do
  (root, kids) ←
      some (map_err (λ e. malformed_xml (bytes "inline schema parse error: " ++ e)) (read text))
  some (map_err (schema_error (bytes "inline schema xsd parse error: ")) (parse_schema root kids))

module _ (load : WsdlLoader) (read : Bytes → Result Bytes Node) (utf8_message : Bytes → Bytes)
    (schemas_fuel types_fuel groups_fuel : ℕ) where
  abbrev pub resolve_partial : RawSchema → List Bytes → Run WsdlError (TypeRegistry × List Bytes)
  resolve_partial raw loaded = map_failure (schema_error (bytes "schema resolution error: ")) (
      resolve_schema (load_schema load utf8_message) read schemas_fuel types_fuel groups_fuel raw
        loaded)

  -- One inline schema.
  unfoldable pub resolve_inline : Bytes → Accumulated → Run WsdlError Accumulated
  resolve_inline text acc = do
    raw ← parse_inline read text
    (partial, loaded) ← resolve_partial raw acc.already_loaded_schemas
    done (record acc {
      already_loaded_schemas = loaded;
      types = merge_missing partial.types acc.types;
      element_type_map = map_elements raw.elements acc.element_type_map;
    })

  unfoldable pub resolve_schemas : List Bytes → Accumulated → Run WsdlError Accumulated
  resolve_schemas [] acc = done acc
  resolve_schemas (text ∷ texts) acc = do next ← resolve_inline text acc; resolve_schemas texts next

  unfoldable pub resolve_wsdl_inner :
      ℕ → Bytes → Accumulated → Run WsdlError (ResolvedWsdl × Accumulated)
  resolve_wsdl_inner zero input acc = none
  resolve_wsdl_inner (suc fuel) input acc = do
    parsed ← some (parse_wsdl read utf8_message input)
    (root, imported) ← resolve_imports load (resolve_wsdl_inner fuel) parsed.imports parsed acc
    all ← resolve_schemas root.types.schemas imported
    done (
      record {
        definition = root;
        type_registry = snapshot all.types new;
        element_type_map = all.element_type_map;
        raw_bytes = input;
      },
      all,
    )

  unfoldable pub resolve_wsdl : ℕ → Bytes → List Bytes → Run WsdlError ResolvedWsdl
  resolve_wsdl fuel input visited = do
    (resolved, acc) ← resolve_wsdl_inner fuel input (record {
      visited = visited;
      already_loaded_schemas = [];
      types = [];
      element_type_map = [];
    })
    done resolved
