-- ===== src/Tests/Resolution.antt =====
-- Documents that import each other, resolved.
use soap_server.Prelude.{
  ◌≡◌, ◌≢◌, refl, arith, Bytes, bytes, none, some, List, [], ◌∷◌, lookup, or_insert, insert,
  insert_set, contains, str_eq, str_beq, ◌==◌, if◌then◌else◌, Result, ok, err, from_utf8,
}
use soap_server.Qname.{qname_eq, local}
use soap_server.Xml.Dom.{Element, Nodes, Node}
use soap_server.Wsdl.Definitions.{WsdlImport, PortType, WsdlDefinition}
use soap_server.Wsdl.Resolved.{ResolvedWsdl}
use soap_server.Wsdl.Parse.Names.{malformed_xml}
use soap_server.Wsdl.Parse.Document.{parse_child, parse_children, parse_root, parse_wsdl}
use soap_server.Wsdl.Parse.Abstract.{
  parse_import, parse_operation_children, parse_operation, parse_operations, parse_port_type,
}
use soap_server.Wsdl.Resolve.{
  WsdlLoader, merge_missing, merge_definition, snapshot, display_wsdl_error, resolve_import,
  resolve_imports, resolve_schemas, resolve_wsdl_inner, resolve_wsdl,
}
use soap_server.Wsdl.Merge.{Extends, view, union, merge_definition-view, resolve_wsdl-keeps_root}
use soap_server.Xsd.Types.{complex, complex_type, ComplexContent, new}
use soap_server.Xsd.Resolve.{FlatTypeMap}
use soap_server.Xsd.Registry.{build_registry}
use soap_server.Xsd.Layers.{Layered}
use soap_server.Xsd.Cycles.{build_registry_total}
use soap_server.Server.Builder.{from_wsdl_bytes, wsdl_parse}
use soap_server.Server.Loaders.{unsupported_import, build}
use soap_server.Server.Embedded.{embedded_import_refused}
use soap_server.Tests.Documents.{wsdl, named}

abbrev import : Bytes → Nodes → Nodes
import location rest =
    Nodes.element (wsdl (bytes "import") ((bytes "location", location) ∷ [])) Nodes.nil rest

-- A document that imports both of two locations, at each of which the same document is.
abbrev root : Element
root = wsdl (bytes "definitions") []

abbrev children : Nodes
children = import (bytes "a") (import (bytes "b") Nodes.nil)

abbrev read : Bytes → Result Bytes Node
read text = ok (root, children)

abbrev places : List Bytes
places = bytes "a" ∷ bytes "b" ∷ []

abbrev load : WsdlLoader
load l =
    if bytes "a" == l
    then ok (bytes "A")
    else if bytes "b" == l
    then ok (bytes "B")
    else err (malformed_xml l)

abbrev message_of : Bytes → Bytes
message_of s = bytes "invalid"

abbrev nothing : FlatTypeMap
nothing = record { types = []; attribute_groups = []; groups = []; elements = [] }

-- A root that imports one location and has a port type, which the document there has too.
abbrev port_type_of : Nodes → Nodes → Nodes
port_type_of kids rest = Nodes.element (wsdl (bytes "portType") (named (bytes "P"))) kids rest

abbrev operation_node : Nodes
operation_node = Nodes.element (wsdl (bytes "operation") (named (bytes "Get"))) Nodes.nil Nodes.nil

abbrev read_root : Bytes → Result Bytes Node
read_root text =
    if text == bytes "A"
    then ok (root, port_type_of operation_node Nodes.nil)
    else ok (root, import (bytes "a") (port_type_of Nodes.nil Nodes.nil))

abbrev empty_port_type : PortType
empty_port_type = record { name = bytes "P"; operations = [] }

abbrev merged : WsdlDefinition
merged = record {
  target_namespace = [];
  imports = record { namespace = []; location = some (bytes "a") } ∷ [];
  types = record { schemas = [] };
  messages = [];
  port_types = (bytes "P", empty_port_type) ∷ [];
  bindings = [];
  services = [];
}

abbrev resolved : ResolvedWsdl
resolved = record {
  definition = merged;
  type_registry = new;
  element_type_map = [];
  raw_bytes = bytes "R";
}

root_resolved : resolve_wsdl load read_root message_of 3 1 1 3 (bytes "R") [] ≡ some (ok resolved)
unfolding resolve_wsdl resolve_wsdl_inner resolve_imports resolve_import resolve_schemas
    merge_definition merge_missing snapshot parse_wsdl parse_root parse_children parse_child
    parse_import parse_port_type parse_operations parse_operation parse_operation_children from_utf8
    lookup insert or_insert contains insert_set str_beq bytes
root_resolved = refl

resolve_wsdl-keeps_root_example :
    (d : WsdlDefinition) × (parse_wsdl read_root message_of (bytes "R") ≡ ok d)
    × Extends d resolved.definition
    × (resolved.raw_bytes ≡ bytes "R")
resolve_wsdl-keeps_root_example =
    resolve_wsdl-keeps_root load read_root message_of 3 1 1 3 (bytes "R") [] root_resolved

-- A type that extends itself: the cycle is an error, and the run ends.
abbrev itself : FlatTypeMap
itself = record nothing {
  types =
      (
        local (bytes "T"),
        complex (
            complex_type none
              (ComplexContent.complex_extension (local (bytes "T")) ComplexContent.empty) []),
      )
      ∷ [];
}

itself-Layered : Layered itself 1
unfolding lookup
itself-Layered = record {
  rank = λ q. 0;
  below = λ q. omega arith;
  groups = λ q g h. absurd (ground arith);
  attribute_groups = λ q g h. absurd (ground arith);
}

build_registry_total_example : build_registry 2 2 itself ≢ none
build_registry_total_example =
    build_registry_total itself 2 1 itself-Layered (omega arith) 2 (omega arith)

abbrev import_of : Bytes → WsdlImport
import_of l = record { namespace = []; location = some l }

abbrev both : WsdlDefinition
both = record merged {
  imports = import_of (bytes "a") ∷ import_of (bytes "b") ∷ [];
  port_types = [];
}

read_both : parse_wsdl read message_of (bytes "R") ≡ ok both
unfolding parse_wsdl parse_root parse_children parse_child parse_import from_utf8 lookup str_beq
    bytes
read_both = refl

embedded_import_refused_example :
    build
      (λ path. err [])
      read
      message_of
      (λ s. s)
      3
      1
      1
      1
      (from_wsdl_bytes {W = Unit {0}} (bytes "R"))
      0
    ≡ some (err (wsdl_parse (display_wsdl_error (unsupported_import (bytes "a")))))
embedded_import_refused_example =
    embedded_import_refused (λ path. err []) read message_of (λ s. s) 2 1 1 1
      (from_wsdl_bytes {W = Unit {0}} (bytes "R")) 0 (bytes "R") both [] (import_of (bytes "a"))
      (import_of (bytes "b") ∷ []) (bytes "a") refl refl read_both refl tt refl

merge_definition-view_example :
    view (merge_definition both merged) ≡ union (view merged) (view both)
merge_definition-view_example = merge_definition-view both merged
