-- ===== src/Wsdl/Parse/Names.antt =====
-- Names and required attributes of the nodes of a WSDL document (src/wsdl/parser.rs).
use soap_server.Prelude.{
  Bytes, bytes, Option, none, some, [], Result, ok, ok_or, split_at_byte, ◌>>=◌,
}
use soap_server.Qname.{QName, new, local}
use soap_server.Xml.Dom.{Element}

pub data WsdlError : Type 0 where
  malformed_xml missing_attribute unknown_namespace : Bytes → WsdlError

abbrev pub wsdl_ns : Bytes
wsdl_ns = bytes "http://schemas.xmlsoap.org/wsdl/"

abbrev pub soap11_binding_ns : Bytes
soap11_binding_ns = bytes "http://schemas.xmlsoap.org/wsdl/soap/"

abbrev pub soap12_binding_ns : Bytes
soap12_binding_ns = bytes "http://schemas.xmlsoap.org/wsdl/soap12/"

abbrev pub xsd_ns : Bytes
xsd_ns = bytes "http://www.w3.org/2001/XMLSchema"

abbrev pub soap_http_transport : Bytes
soap_http_transport = bytes "http://schemas.xmlsoap.org/soap/http"

-- `unwrap_or`
abbrev pub or_default : Bytes → Option Bytes → Bytes
or_default d none = d
or_default d (some v) = v

-- The namespace of an element's name, empty if it has none.
abbrev pub namespace_of : Element → Bytes
namespace_of node = or_default [] node.tag_namespace

-- `attribute(name).ok_or_else(..)`, with the text that names the attribute.
abbrev pub required : Bytes → Element → Bytes → Result WsdlError Bytes
required what node name = ok_or (missing_attribute what) (node.attribute name)

abbrev in_default : Bytes → Option Bytes → QName
in_default name none = local name
in_default name (some ns) = new ns name

unfoldable pub resolve_qname_str : Bytes → Element → Result WsdlError QName
resolve_qname_str name context = elim (split_at_byte b':' name) [
  | some (prefix, rest) ↦ (do
    ns ← ok_or (unknown_namespace prefix) (context.lookup_namespace_uri (some prefix))
    ok (new ns rest))
  | none ↦ ok (in_default name (context.lookup_namespace_uri none))
]

-- `map(..).transpose()`
abbrev pub resolve_optional : Option Bytes → Element → Result WsdlError (Option QName)
resolve_optional none context = ok none
resolve_optional (some name) context = do q ← resolve_qname_str name context; ok (some q)
