-- ===== src/Wsdl/Total.antt =====
-- The resolution of a WSDL document ends (src/wsdl/resolver.rs).
use soap_server.Prelude.{ℕ, ◌<◌, ◌≡◌, Bytes, some, List, str_eq, length, Result, ok}
use soap_server.Prelude.Run.{Run}
use soap_server.Xml.Dom.{Node}
use soap_server.Xsd.Resolve.{FlatTypeMap}
use soap_server.Xsd.Parse.Schema.{RawSchema}
use soap_server.Xsd.Collect.{collect_all_schemas}
use soap_server.Xsd.Layers.{Layered}
use soap_server.Xsd.Ends
use soap_server.Wsdl.Resolve.{WsdlLoader, load_schema, parse_inline}

module _ (load : WsdlLoader) (read : Bytes → Result Bytes Node) (utf8_message : Bytes → Bytes)
    (schemas_fuel types_fuel groups_fuel depth : ℕ) where
  -- What the collections of inline schemas yield has layered groups and few types.
  abbrev pub Manageable : Type 0
  Manageable =
      (text : Bytes) (raw : RawSchema) (loaded loaded' : List Bytes) (flat : FlatTypeMap)
      → parse_inline read text ≡ some (ok raw)
      → collect_all_schemas (load_schema load utf8_message) read schemas_fuel raw loaded
        ≡ some (ok (flat, loaded'))
      → Layered flat depth × (length flat.types < types_fuel)
