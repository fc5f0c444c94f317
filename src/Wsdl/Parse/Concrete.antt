-- ===== src/Wsdl/Parse/Concrete.antt =====
-- Bindings (src/wsdl/parser.rs).
use soap_server.Prelude.{
  Bytes, bytes, Bool, Option, none, some, List, [], ◌∷◌, ◌++◌, str_eq, ◌==◌, ◌&&◌, if◌then◌else◌,
  Result, ok, ◌>>=◌,
}
use soap_server.Xml.Dom.{Element, Nodes}
use soap_server.Wsdl.Definitions.{
  SoapVersion, soap11, soap12, BindingStyle, document, rpc, UseStyle, literal, encoded, SoapBinding,
  SoapBody, BindingMessage, BindingOperation, Binding,
}
use soap_server.Wsdl.Parse.Names.{
  WsdlError, wsdl_ns, soap11_binding_ns, soap12_binding_ns, soap_http_transport, or_default,
  namespace_of, required, resolve_qname_str,
}

abbrev style_of_name : Option Bytes → BindingStyle
style_of_name none = document
style_of_name (some v) = if v == bytes "rpc" then rpc else document

unfoldable pub parse_binding_style : Element → BindingStyle
parse_binding_style node = style_of_name (node.attribute (bytes "style"))

abbrev use_of_name : Option Bytes → UseStyle
use_of_name none = literal
use_of_name (some v) = if v == bytes "encoded" then encoded else literal

abbrev soap_body : Element → SoapBody
soap_body node = record {
  use_attr = use_of_name (node.attribute (bytes "use"));
  namespace = node.attribute (bytes "namespace");
  encoding_style = node.attribute (bytes "encodingStyle");
}

-- A header without both attributes is passed over.
abbrev push_header :
    Element → Option Bytes → Option Bytes → BindingMessage → Result WsdlError BindingMessage
push_header node (some msg) (some part) m = do
  message ← resolve_qname_str msg node
  ok (record m { headers = m.headers ++ record { message = message; part = part } ∷ [] })
push_header node (some msg) none m = ok m
push_header node none part m = ok m

unfoldable pub parse_message_child :
    Bytes → Element → BindingMessage → Result WsdlError BindingMessage
parse_message_child soap_ns node m =
    if namespace_of node == soap_ns
    then (if node.tag == bytes "body"
        then ok (record m { body = soap_body node })
        else if node.tag == bytes "header"
        then push_header node (node.attribute (bytes "message")) (node.attribute (bytes "part")) m
        else ok m)
    else ok m

unfoldable pub parse_message_children :
    Bytes → Nodes → BindingMessage → Result WsdlError BindingMessage
parse_message_children soap_ns Nodes.nil m = ok m
parse_message_children soap_ns (Nodes.element node kids rest) m = do
  next ← parse_message_child soap_ns node m
  parse_message_children soap_ns rest next
parse_message_children soap_ns (Nodes.text s rest) m = parse_message_children soap_ns rest m
parse_message_children soap_ns (Nodes.other rest) m = parse_message_children soap_ns rest m

abbrev pub plain_message : BindingMessage
plain_message = record {
  body = record { use_attr = literal; namespace = none; encoding_style = none };
  headers = [];
}

unfoldable pub parse_binding_message : Nodes → Bytes → Result WsdlError BindingMessage
unfolding parse_message_children
parse_binding_message kids soap_ns = parse_message_children soap_ns kids plain_message

abbrev pub soap_op_ns : SoapVersion → Bytes
soap_op_ns soap11 = soap11_binding_ns
soap_op_ns soap12 = soap12_binding_ns

abbrev is_named : Element → Bytes → Bytes → Bool
is_named node name ns = node.tag == name && namespace_of node == ns

unfoldable pub parse_operation_child :
    Bytes → Element → Nodes → BindingOperation → Result WsdlError BindingOperation
parse_operation_child op_ns node kids op =
    if is_named node (bytes "operation") op_ns
    then ok (record op { soap_action = or_default [] (node.attribute (bytes "soapAction")) })
    else if is_named node (bytes "input") wsdl_ns
    then (do m ← parse_binding_message kids op_ns; ok (record op { input = m }))
    else if is_named node (bytes "output") wsdl_ns
    then (do m ← parse_binding_message kids op_ns; ok (record op { output = m }))
    else ok op

unfoldable pub parse_operation_children :
    Bytes → Nodes → BindingOperation → Result WsdlError BindingOperation
parse_operation_children op_ns Nodes.nil op = ok op
parse_operation_children op_ns (Nodes.element node kids rest) op = do
  next ← parse_operation_child op_ns node kids op
  parse_operation_children op_ns rest next
parse_operation_children op_ns (Nodes.text s rest) op = parse_operation_children op_ns rest op
parse_operation_children op_ns (Nodes.other rest) op = parse_operation_children op_ns rest op

unfoldable pub parse_binding_operation :
    Element → Nodes → SoapVersion → Result WsdlError BindingOperation
unfolding parse_operation_children
parse_binding_operation node kids version = do
  name ← required (bytes "binding/operation/@name") node (bytes "name")
  parse_operation_children (soap_op_ns version) kids
      (record { name = name; soap_action = []; input = plain_message; output = plain_message })

-- The variables of the loop of `parse_binding`.
pub record BindingParts : Type 0 where
  pub soap_binding : SoapBinding
  pub operations : List BindingOperation

abbrev soap_binding_of : Element → SoapVersion → SoapBinding
soap_binding_of node version = record {
  style = parse_binding_style node;
  transport = or_default soap_http_transport (node.attribute (bytes "transport"));
  soap_version = version;
}

-- An operation is read in the version that the binding has so far.
unfoldable pub parse_binding_child : Element → Nodes → BindingParts → Result WsdlError BindingParts
parse_binding_child node kids parts =
    if is_named node (bytes "binding") soap11_binding_ns
    then ok (record parts { soap_binding = soap_binding_of node soap11 })
    else if is_named node (bytes "binding") soap12_binding_ns
    then ok (record parts { soap_binding = soap_binding_of node soap12 })
    else if is_named node (bytes "operation") wsdl_ns
    then (do
      op ← parse_binding_operation node kids parts.soap_binding.soap_version
      ok (record parts { operations = parts.operations ++ op ∷ [] }))
    else ok parts

unfoldable pub parse_binding_children : Nodes → BindingParts → Result WsdlError BindingParts
parse_binding_children Nodes.nil parts = ok parts
parse_binding_children (Nodes.element node kids rest) parts = do
  next ← parse_binding_child node kids parts
  parse_binding_children rest next
parse_binding_children (Nodes.text s rest) parts = parse_binding_children rest parts
parse_binding_children (Nodes.other rest) parts = parse_binding_children rest parts

abbrev pub default_parts : BindingParts
default_parts = record {
  soap_binding = record {
    style = document;
    transport = soap_http_transport;
    soap_version = soap11;
  };
  operations = [];
}

unfoldable pub parse_binding : Element → Nodes → Result WsdlError Binding
parse_binding node kids = do
  name ← required (bytes "binding/@name") node (bytes "name")
  port_type_str ← required (bytes "binding/@type") node (bytes "type")
  port_type ← resolve_qname_str port_type_str node
  parts ← parse_binding_children kids default_parts
  ok (record {
    name = name;
    port_type = port_type;
    soap_binding = parts.soap_binding;
    operations = parts.operations;
  })
