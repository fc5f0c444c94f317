-- ===== src/Xsd/Collect.antt =====
-- The collection of a schema and of all that it imports or includes (src/xsd/resolver.rs). The
-- loader and roxmltree's reader are arguments. Each schema taken from the queue takes a unit of
-- fuel.
use soap_server.Prelude.{
  ℕ, zero, suc, Bytes, Option, none, some, List, [], ◌∷◌, Map, insert, contains, insert_set, str_eq,
  Eq, if◌then◌else◌, Result, ok, err, map_err, ◌>>=◌,
}
use soap_server.Prelude.Run.{Run}
use soap_server.Qname.{qname_eq}
use soap_server.Xml.Dom.{Node}
use soap_server.Xsd.Resolve.{FlatTypeMap, SchemaError, malformed_xml}
use soap_server.Xsd.Parse.Schema.{SchemaImport, SchemaInclude, RawSchema, parse_schema}

-- `HashMap::extend`
unfoldable pub extend {ℓ κ} : {K : Type ℓ} {V : Type κ} ⦃e : Eq K⦄ → Map K V → Map K V → Map K V
extend [] m = m
extend ((k, v) ∷ more) m = extend more (insert k v m)

abbrev pub empty_map : FlatTypeMap
empty_map = record { types = []; attribute_groups = []; groups = []; elements = [] }

unfoldable pub merge_schema : RawSchema → FlatTypeMap → FlatTypeMap
merge_schema schema flat = record {
  types = extend schema.types flat.types;
  attribute_groups = extend schema.attribute_groups flat.attribute_groups;
  groups = extend schema.groups flat.groups;
  elements = extend schema.elements flat.elements;
}

-- The queue, its top first, and the locations loaded so far.
pub record Pending : Type 0 where
  pub queue : List RawSchema
  pub already_loaded : List Bytes

module _ (load : Option Bytes → Bytes → Result SchemaError Bytes)
    (read : Bytes → Result Bytes Node) where
  abbrev pub parse_loaded : Bytes → Result SchemaError RawSchema
  parse_loaded xml = do (root, kids) ← map_err malformed_xml (read xml); parse_schema root kids

  -- A location that is not loaded yet.
  abbrev pub load_new : Option Bytes → Bytes → Pending → Result SchemaError Pending
  load_new namespace location p = do
    xml ← load namespace location
    raw ← parse_loaded xml
    ok (record { queue = raw ∷ p.queue; already_loaded = insert_set location p.already_loaded })

  -- One import or include with a location.
  unfoldable pub load_location : Option Bytes → Bytes → Pending → Result SchemaError Pending
  load_location namespace location p =
      if contains p.already_loaded location then ok p else load_new namespace location p

  abbrev pub load_import : Option Bytes → Option Bytes → Pending → Result SchemaError Pending
  load_import namespace none p = ok p
  load_import namespace (some location) p = load_location namespace location p

  unfoldable pub load_imports : List SchemaImport → Pending → Result SchemaError Pending
  load_imports [] p = ok p
  load_imports (import ∷ imports) p = do
    next ← load_import import.namespace import.schema_location p
    load_imports imports next

  unfoldable pub load_includes : List SchemaInclude → Pending → Result SchemaError Pending
  load_includes [] p = ok p
  load_includes (include ∷ includes) p = do
    next ← load_location none include.schema_location p
    load_includes includes next

  abbrev pub load_references : RawSchema → Pending → Result SchemaError Pending
  load_references schema p = do
    imported ← load_imports schema.imports p
    load_includes schema.includes imported

  -- The loop over the queue.
  unfoldable pub collect :
      ℕ → List RawSchema → List Bytes → FlatTypeMap → Run SchemaError (FlatTypeMap × List Bytes)
  collect zero queue loaded flat = none
  collect (suc fuel) [] loaded flat = some (ok (flat, loaded))
  collect (suc fuel) (schema ∷ queue) loaded flat =
      elim (load_references schema (record { queue = queue; already_loaded = loaded })) [
        | err e ↦ some (err e)
        | ok p ↦ collect fuel p.queue p.already_loaded (merge_schema schema flat)
      ]

  unfoldable pub collect_all_schemas :
      ℕ → RawSchema → List Bytes → Run SchemaError (FlatTypeMap × List Bytes)
  collect_all_schemas fuel raw loaded = collect fuel (raw ∷ []) loaded empty_map
