-- ===== src/Xsd/Parse/Schema.antt =====
-- One schema (src/xsd/parser.rs).
use soap_server.Prelude.{
  Bytes, bytes, Option, none, some, List, [], ◌∷◌, ◌++◌, Map, insert, Result, ok,
}
use soap_server.Qname.{QName, qname_eq}
use soap_server.Xml.Dom.{Element, Nodes}
use soap_server.Xsd.Elements.{AttributeGroup}
use soap_server.Xsd.Types.{XsdType, complex, simple, XsdElement}
use soap_server.Xsd.Groups.{Group}
use soap_server.Xsd.Resolve.{SchemaError}
use soap_server.Xsd.Parse.Names.{qualify_name, kind, Kind}
use soap_server.Xsd.Parse.Facets.{visit_simple_type, visit_attribute_group_def}
use soap_server.Xsd.Parse.Particles.{visit_element, visit_complex_type, visit_group_def}

pub record SchemaImport : Type 0 where
  pub namespace : Option Bytes
  pub schema_location : Option Bytes

pub record SchemaInclude : Type 0 where
  pub schema_location : Bytes

pub record RawSchema : Type 0 where
  pub target_namespace : Option Bytes
  pub types : Map QName XsdType
  pub elements : Map QName XsdElement
  pub attribute_groups : Map QName AttributeGroup
  pub groups : Map QName Group
  pub imports : List SchemaImport
  pub includes : List SchemaInclude

-- An entry is made under the qualified name, if the node has one.
abbrev insert_named {ℓ} : {V : Type ℓ} → Option Bytes → Option Bytes → V → Map QName V → Map QName V
insert_named target none value m = m
insert_named target (some name) value m = insert (qualify_name name target) value m

abbrev insert_group : RawSchema → Option Group → RawSchema
insert_group schema none = schema
insert_group schema (some g) = record schema {
  groups = insert (qualify_name g.name schema.target_namespace) g schema.groups;
}

abbrev insert_attribute_group : RawSchema → Option AttributeGroup → RawSchema
insert_attribute_group schema none = schema
insert_attribute_group schema (some ag) = record schema {
  attribute_groups =
      insert (qualify_name ag.name schema.target_namespace) ag schema.attribute_groups;
}

abbrev push_include : RawSchema → Option Bytes → RawSchema
push_include schema none = schema
push_include schema (some loc) = record schema {
  includes = schema.includes ++ record { schema_location = loc } ∷ [];
}

-- The match on one child.
unfoldable pub visit_child : Element → Nodes → RawSchema → RawSchema
visit_child node kids schema =
    let name = node.attribute (bytes "name") in
    let target = schema.target_namespace in
    elim (kind node) [
      | Kind.complex_type ↦ record schema {
        types = insert_named target name (complex (visit_complex_type node kids)) schema.types;
      }
      | Kind.simple_type ↦ record schema {
        types = insert_named target name (simple (visit_simple_type node kids)) schema.types;
      }
      | Kind.element ↦ record schema {
        elements = insert_named target name (visit_element node kids) schema.elements;
      }
      | Kind.attribute_group ↦ insert_attribute_group schema (visit_attribute_group_def node kids)
      | Kind.group ↦ insert_group schema (visit_group_def node kids)
      | Kind.import ↦ record schema {
        imports =
            schema.imports
            ++ record {
              namespace = node.attribute (bytes "namespace");
              schema_location = node.attribute (bytes "schemaLocation");
            }
              ∷ [];
      }
      | Kind.include ↦ push_include schema (node.attribute (bytes "schemaLocation"))
      | _ ↦ schema
    ]

unfoldable pub visit_children : Nodes → RawSchema → RawSchema
visit_children Nodes.nil schema = schema
visit_children (Nodes.element node kids rest) schema =
    visit_children rest (visit_child node kids schema)
visit_children (Nodes.text s rest) schema = visit_children rest schema
visit_children (Nodes.other rest) schema = visit_children rest schema

abbrev pub empty_schema : Option Bytes → RawSchema
empty_schema target = record {
  target_namespace = target;
  types = [];
  elements = [];
  attribute_groups = [];
  groups = [];
  imports = [];
  includes = [];
}

-- It never fails.
unfoldable pub parse_schema : Element → Nodes → Result SchemaError RawSchema
parse_schema node kids =
    ok (visit_children kids (empty_schema (node.attribute (bytes "targetNamespace"))))
