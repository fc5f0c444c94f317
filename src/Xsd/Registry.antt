-- ===== src/Xsd/Registry.antt =====
-- The registry of a schema's types (`resolve_schema` of src/xsd/resolver.rs). The three fuels are
-- those of the collection, of the resolution of types, and of the expansion of groups.
use soap_server.Prelude.{
  ℕ, Bytes, Option, none, some, List, [], ◌∷◌, Map, lookup, insert, Result, ok, err,
}
use soap_server.Prelude.Run.{Run, ◌>>=◌, done}
use soap_server.Qname.{QName, qname_eq}
use soap_server.Xml.Dom.{Node}
use soap_server.Xsd.Types.{
  XsdType, complex, simple, ComplexType, XsdElement, InlineType, no_inline, inline, inline_type,
  TypeRegistry, new, insert_type, lookup_type,
}
use soap_server.Xsd.Resolve.{
  FlatTypeMap, SchemaError, Progress, resolve_complex_type, resolve_named_type,
}
use soap_server.Xsd.Parse.Schema.{RawSchema}
use soap_server.Xsd.Collect.{collect_all_schemas}

-- The loop that registers the simple types.
unfoldable pub register_simple : Map QName XsdType → TypeRegistry → TypeRegistry
register_simple [] r = r
register_simple ((name, simple st) ∷ types) r =
    register_simple types (insert_type name (simple st) r)
register_simple ((name, complex ct) ∷ types) r = register_simple types r

unfoldable pub complex_qnames : Map QName XsdType → List QName
complex_qnames [] = []
complex_qnames ((name, simple st) ∷ types) = complex_qnames types
complex_qnames ((name, complex ct) ∷ types) = name ∷ complex_qnames types

unfoldable pub register_resolved : Map QName ComplexType → TypeRegistry → TypeRegistry
register_resolved [] r = r
register_resolved ((name, ct) ∷ types) r = register_resolved types (insert_type name (complex ct) r)

module _ (types_fuel groups_fuel : ℕ) (flat : FlatTypeMap) where
  abbrev pub named : QName → Progress → Run SchemaError (ComplexType × Progress)
  named = resolve_named_type flat groups_fuel types_fuel

  -- One round of the loop over the complex types.
  abbrev pub resolve_one : QName → Map QName ComplexType → Run SchemaError (Map QName ComplexType)
  resolve_one name resolved = elim (lookup name resolved) [
    | some ct ↦ some (ok resolved)
    | none ↦ (do
      (ct, p) ← named name (record { resolved = resolved; resolving = [] })
      done (insert name ct p.resolved))
  ]

  unfoldable pub resolve_all :
      List QName → Map QName ComplexType → Run SchemaError (Map QName ComplexType)
  resolve_all [] resolved = done resolved
  resolve_all (name ∷ names) resolved = do next ← resolve_one name resolved; resolve_all names next

  -- An inline type that does not resolve is passed over.
  abbrev pub register_attempt :
      QName → Run SchemaError (ComplexType × Progress) → TypeRegistry → Run SchemaError TypeRegistry
  register_attempt name none r = none
  register_attempt name (some (err e)) r = some (ok r)
  register_attempt name (some (ok (ct, p))) r = some (ok (insert_type name (complex ct) r))

  abbrev pub register_inline : QName → InlineType → TypeRegistry → Run SchemaError TypeRegistry
  register_inline name no_inline r = done r
  register_inline name (inline (simple st)) r = done r
  register_inline name (inline (complex raw)) r =
      register_attempt name
        (resolve_complex_type flat groups_fuel named raw (record { resolved = []; resolving = [] }))
        r

  abbrev pub register_element : QName → XsdElement → TypeRegistry → Run SchemaError TypeRegistry
  register_element name el r = elim (lookup_type r name) [
    | some ty ↦ some (ok r)
    | none ↦ register_inline name (inline_type el) r
  ]

  -- The loop over the top-level elements.
  unfoldable pub register_elements :
      Map QName XsdElement → TypeRegistry → Run SchemaError TypeRegistry
  register_elements [] r = done r
  register_elements ((name, el) ∷ els) r = do
    next ← register_element name el r
    register_elements els next

  -- The steps after the collection.
  unfoldable pub build_registry : Run SchemaError TypeRegistry
  build_registry = do
    resolved ← resolve_all (complex_qnames flat.types) []
    register_elements flat.elements (register_resolved resolved (register_simple flat.types new))

module _ (load : Option Bytes → Bytes → Result SchemaError Bytes)
    (read : Bytes → Result Bytes Node) where
  -- The locations loaded are returned, as the source keeps them in its argument.
  unfoldable pub resolve_schema :
      ℕ → ℕ → ℕ → RawSchema → List Bytes → Run SchemaError (TypeRegistry × List Bytes)
  resolve_schema schemas_fuel types_fuel groups_fuel raw already_loaded = do
    (flat, loaded) ← collect_all_schemas load read schemas_fuel raw already_loaded
    registry ← build_registry types_fuel groups_fuel flat
    done (registry, loaded)
