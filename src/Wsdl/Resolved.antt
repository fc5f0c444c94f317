-- ===== src/Wsdl/Resolved.antt =====
-- The output of WSDL resolution (`ResolvedWsdl` of src/wsdl/resolver.rs).
use soap_server.Prelude.{Bytes, Map}
use soap_server.Qname.{QName}
use soap_server.Wsdl.Definitions.{WsdlDefinition}
use soap_server.Xsd.Types.{TypeRegistry}

pub record ResolvedWsdl : Type 0 where
  pub definition : WsdlDefinition
  pub type_registry : TypeRegistry
  pub element_type_map : Map QName QName
  pub raw_bytes : Bytes
