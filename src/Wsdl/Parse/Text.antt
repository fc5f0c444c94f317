-- ===== src/Wsdl/Parse/Text.antt =====
-- Writing a node back as text, for the schemas in a WSDL document (src/wsdl/parser.rs).
use soap_server.Prelude.{
  Bytes, bytes, Bool, true, false, Option, none, some, List, [], ◌∷◌, ◌++◌, str_eq, ◌==◌,
  if◌then◌else◌,
}
use soap_server.Xml.Dom.{Element, Nodes}
use soap_server.Wsdl.Parse.Names.{or_default, namespace_of}

abbrev prefix_in : List (Option Bytes × Bytes) → Bytes → Option Bytes
prefix_in [] uri = none
prefix_in ((name, u) ∷ rest) uri =
    if u == uri then some (or_default [] name) else prefix_in rest uri

-- The first name that is bound to the URI; empty for the default namespace.
unfoldable pub find_prefix_for_ns : Element → Bytes → Option Bytes
find_prefix_for_ns node [] = none
find_prefix_for_ns node (c ∷ uri) = prefix_in node.namespaces (c ∷ uri)

abbrev with_prefix : Bytes → Option Bytes → Bytes
with_prefix name none = name
with_prefix name (some []) = name
with_prefix name (some (c ∷ prefix)) = (c ∷ prefix) ++ bytes ":" ++ name

unfoldable pub qualified_name : Element → Bytes
qualified_name node = with_prefix node.tag (find_prefix_for_ns node (namespace_of node))

abbrev declaration : Option Bytes → Bytes → Bytes
declaration none uri = bytes " xmlns=\"" ++ uri ++ bytes "\""
declaration (some prefix) uri = bytes " xmlns:" ++ prefix ++ bytes "=\"" ++ uri ++ bytes "\""

unfoldable pub write_namespaces : List (Option Bytes × Bytes) → Bytes
write_namespaces [] = []
write_namespaces ((name, uri) ∷ rest) = declaration name uri ++ write_namespaces rest

unfoldable pub write_attributes : List (Bytes × Bytes) → Bytes
write_attributes [] = []
write_attributes ((name, value) ∷ rest) =
    bytes " " ++ name ++ bytes "=\"" ++ value ++ bytes "\"" ++ write_attributes rest

abbrev has_children : Nodes → Bool
has_children Nodes.nil = false
has_children _ = true

-- An element, given its children's text.
unfoldable pub write_element : Element → Bool → Bytes → Bytes
write_element node parent inner =
    bytes "<"
    ++ qualified_name node
    ++ write_namespaces node.namespaces
    ++ write_attributes node.attributes
    ++ (if parent
        then bytes ">" ++ inner ++ bytes "</" ++ qualified_name node ++ bytes ">"
        else bytes "/>")

-- `serialize_node`, for all children of a node.
unfoldable pub serialize_nodes : Nodes → Bytes
serialize_nodes Nodes.nil = []
serialize_nodes (Nodes.element node kids rest) =
    write_element node (has_children kids) (serialize_nodes kids) ++ serialize_nodes rest
serialize_nodes (Nodes.text s rest) = s ++ serialize_nodes rest
serialize_nodes (Nodes.other rest) = serialize_nodes rest

unfoldable pub node_to_string : Element → Nodes → Bytes
node_to_string node kids = write_element node (has_children kids) (serialize_nodes kids)
