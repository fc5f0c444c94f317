-- ===== src/Wsdl/Parse/Document.antt =====
-- A whole WSDL document (src/wsdl/parser.rs). The reader of roxmltree, with the text of its error,
-- and the text of an error of UTF-8 are arguments.
use soap_server.Prelude.{
  Bytes, bytes, List, [], ◌∷◌, ◌++◌, insert, str_eq, ◌==◌, ◌&&◌, if◌then◌else◌, Result, ok, err,
  ok_or, map_err, ◌>>=◌, from_utf8,
}
use soap_server.Xml.Dom.{Element, Nodes, Node}
use soap_server.Wsdl.Definitions.{TypesSection, WsdlDefinition}
use soap_server.Wsdl.Parse.Names.{
  WsdlError, malformed_xml, wsdl_ns, xsd_ns, or_default, namespace_of,
}
use soap_server.Wsdl.Parse.Abstract.{parse_import, parse_message, parse_port_type, parse_service}
use soap_server.Wsdl.Parse.Concrete.{parse_binding}
use soap_server.Wsdl.Parse.Text.{node_to_string}

-- The schemas of a `types` section, as texts.
unfoldable pub schema_texts : Nodes → List Bytes
schema_texts Nodes.nil = []
schema_texts (Nodes.element node kids rest) =
    let more = schema_texts rest in
    if namespace_of node == xsd_ns && node.tag == bytes "schema"
    then node_to_string node kids ∷ more
    else more
schema_texts (Nodes.text s rest) = schema_texts rest
schema_texts (Nodes.other rest) = schema_texts rest

abbrev parse_types : Nodes → TypesSection
parse_types kids = record { schemas = schema_texts kids }

-- The match on one child of the root.
unfoldable pub parse_child : Element → Nodes → WsdlDefinition → Result WsdlError WsdlDefinition
parse_child node kids d =
    if namespace_of node == wsdl_ns
    then (if node.tag == bytes "import"
        then ok (record d { imports = d.imports ++ parse_import node ∷ [] })
        else if node.tag == bytes "types"
        then ok (record d { types = parse_types kids })
        else if node.tag == bytes "message"
        then (do
          m ← parse_message node kids
          ok (record d { messages = insert m.name m d.messages }))
        else if node.tag == bytes "portType"
        then (do
          pt ← parse_port_type node kids
          ok (record d { port_types = insert pt.name pt d.port_types }))
        else if node.tag == bytes "binding"
        then (do
          b ← parse_binding node kids
          ok (record d { bindings = insert b.name b d.bindings }))
        else if node.tag == bytes "service"
        then (do
          svc ← parse_service node kids
          ok (record d { services = insert svc.name svc d.services }))
        else ok d)
    else ok d

unfoldable pub parse_children : Nodes → WsdlDefinition → Result WsdlError WsdlDefinition
parse_children Nodes.nil d = ok d
parse_children (Nodes.element node kids rest) d = do
  next ← parse_child node kids d
  parse_children rest next
parse_children (Nodes.text s rest) d = parse_children rest d
parse_children (Nodes.other rest) d = parse_children rest d

abbrev pub empty_definition : Bytes → WsdlDefinition
empty_definition target = record {
  target_namespace = target;
  imports = [];
  types = record { schemas = [] };
  messages = [];
  port_types = [];
  bindings = [];
  services = [];
}

-- The steps after the document is read.
unfoldable pub parse_root : Element → Nodes → Result WsdlError WsdlDefinition
parse_root root kids =
    if root.tag == bytes "definitions"
    then parse_children kids
        (empty_definition (or_default [] (root.attribute (bytes "targetNamespace"))))
    else err (
        malformed_xml (bytes "Expected root element 'definitions', got '" ++ root.tag ++ bytes "'"))

unfoldable pub parse_wsdl :
    (Bytes → Result Bytes Node) → (Bytes → Bytes) → Bytes → Result WsdlError WsdlDefinition
parse_wsdl read utf8_message input = do
  text ← ok_or (malformed_xml (bytes "UTF-8 error: " ++ utf8_message input)) (from_utf8 input)
  (root, kids) ← map_err malformed_xml (read text)
  parse_root root kids
