-- ===== src/Tests/Documents.antt =====
-- Small documents, and what the parsers read from them.
use soap_server.Prelude.{
  ◌≡◌, refl, Bytes, bytes, none, some, [], ◌∷◌, ◌++◌, Map, lookup, str_eq, str_beq, ok,
  split_at_byte,
}
use soap_server.Qname.{QName, new, local}
use soap_server.Xml.Dom.{Element, Nodes, append}
use soap_server.Wsdl.Definitions.{OperationMessage, Operation, PortType, request_response}
use soap_server.Wsdl.Parse.Names.{wsdl_ns}
use soap_server.Wsdl.Parse.Abstract.{parse_port_type}
use soap_server.Wsdl.Parse.Text.{node_to_string}
use soap_server.Wsdl.Written.{port_type_node, operations_nodes, parse_port_type-nodes}
use soap_server.Wsdl.Injection.{forged, with_attributes, attribute_injection}
use soap_server.Xsd.Parse.Names.{xs_ns, kind}
use soap_server.Xsd.Parse.Particles.{visit_particle_children, visit_complex_type}
use soap_server.Xsd.Models.{
  nested_alternatives_required, group_references_lost, extended, extension_attributes_lost,
}
use soap_server.Dispatch.Validate.{required_names}

-- An element in a namespace with attributes; no prefix is bound.
abbrev pub node_in : Bytes → Bytes → Map Bytes Bytes → Element
node_in ns tag attrs = record {
  tag_namespace = some ns;
  tag = tag;
  attribute = λ n. lookup n attrs;
  lookup_namespace_uri = λ p. none;
  namespaces = [];
  attributes = attrs;
}

abbrev pub xs : Bytes → Map Bytes Bytes → Element
xs = node_in xs_ns

abbrev pub wsdl : Bytes → Map Bytes Bytes → Element
wsdl = node_in wsdl_ns

abbrev pub named : Bytes → Map Bytes Bytes
named name = (bytes "name", name) ∷ []

abbrev declared : Bytes → Nodes → Nodes
declared name rest = Nodes.element (xs (bytes "element") (named name)) Nodes.nil rest

-- A sequence of `a`, a choice of `b` and `c`, and `d`: a message needs all four.
nested_alternatives_required_example :
    required_names (
      visit_particle_children (
        append (declared (bytes "a") Nodes.nil) (
          Nodes.element
            (xs (bytes "choice") [])
            (declared (bytes "b") (declared (bytes "c") Nodes.nil))
            (declared (bytes "d") Nodes.nil))))
    ≡ required_names (visit_particle_children (declared (bytes "a") Nodes.nil))
      ++ (required_names
            (visit_particle_children (declared (bytes "b") (declared (bytes "c") Nodes.nil)))
          ++ required_names (visit_particle_children (declared (bytes "d") Nodes.nil)))
unfolding kind str_beq bytes
nested_alternatives_required_example =
    nested_alternatives_required (declared (bytes "a") Nodes.nil)
      (declared (bytes "b") (declared (bytes "c") Nodes.nil)) (declared (bytes "d") Nodes.nil)
      (xs (bytes "choice") []) tt

group_references_lost_example :
    visit_particle_children (
      append (declared (bytes "a") Nodes.nil) (
        Nodes.element
          (xs (bytes "group") ((bytes "ref", bytes "g") ∷ []))
          Nodes.nil
          (declared (bytes "d") Nodes.nil)))
    ≡ visit_particle_children
        (append (declared (bytes "a") Nodes.nil) (declared (bytes "d") Nodes.nil))
unfolding kind str_beq bytes
group_references_lost_example =
    group_references_lost (declared (bytes "a") Nodes.nil) Nodes.nil
      (declared (bytes "d") Nodes.nil) (xs (bytes "group") ((bytes "ref", bytes "g") ∷ [])) refl

abbrev extension : Element
extension = xs (bytes "extension") ((bytes "base", bytes "B") ∷ [])

abbrev attribute : Element
attribute = xs (bytes "attribute") (named (bytes "lang"))

extension_attributes_lost_example :
    visit_complex_type (xs (bytes "complexType") (named (bytes "T"))) (
      extended
        (xs (bytes "complexContent") [])
        extension
        (append Nodes.nil (Nodes.element attribute Nodes.nil Nodes.nil))
        Nodes.nil
        Nodes.nil)
    ≡ visit_complex_type (xs (bytes "complexType") (named (bytes "T"))) (
        extended
          (xs (bytes "complexContent") [])
          extension
          (append Nodes.nil Nodes.nil)
          Nodes.nil
          Nodes.nil)
unfolding kind str_beq bytes
extension_attributes_lost_example =
    extension_attributes_lost (xs (bytes "complexType") (named (bytes "T")))
      (xs (bytes "complexContent") []) extension attribute Nodes.nil Nodes.nil Nodes.nil Nodes.nil
      Nodes.nil refl refl tt

attribute_injection_example :
    node_to_string
      (with_attributes
        (xs (bytes "element") [])
        ([] ++ (bytes "name", forged (bytes "a") (bytes "type") (bytes "T")) ∷ []))
      Nodes.nil
    ≡ node_to_string
        (with_attributes
          (xs (bytes "element") [])
          ([] ++ (bytes "name", bytes "a") ∷ (bytes "type", bytes "T") ∷ []))
        Nodes.nil
attribute_injection_example =
    attribute_injection (xs (bytes "element") []) Nodes.nil [] [] (bytes "name") (bytes "a")
      (bytes "type") (bytes "T")

abbrev message : QName → OperationMessage
message q = record { name = none; message = q }

abbrev operation : Operation
operation = record {
  name = bytes "Get";
  input = some (message (new (bytes "urn:m") (bytes "GetIn")));
  output = some (message (local (bytes "GetOut")));
  faults = record { name = bytes "Bad"; message = new (bytes "urn:f") (bytes "BadMsg") } ∷ [];
  style = request_response;
}

abbrev port_type : PortType
port_type = record { name = bytes "P"; operations = operation ∷ [] }

parse_port_type-nodes_example :
    parse_port_type (port_type_node port_type) (operations_nodes port_type.operations)
    ≡ ok port_type
unfolding split_at_byte bytes
parse_port_type-nodes_example = parse_port_type-nodes port_type ((tt, refl, (tt, tt), refl), tt)
