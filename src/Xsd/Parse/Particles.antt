-- ===== src/Xsd/Parse/Particles.antt =====
-- Elements, content models and complex types (src/xsd/parser.rs). The visitors call each other on
-- the children of a node: they are one block, in which each loop is a recursion over the children.
-- What the source collects and then drops (`any_attribute` of a complex type, the attributes of an
-- extension) is not collected.
use soap_server.Prelude.{
  Bytes, bytes, Bool, false, Option, none, some, List, [], ◌∷◌, ◌++◌, str_eq, ◌==◌,
}
use soap_server.Qname.{QName, local}
use soap_server.Xml.Dom.{Element, Nodes}
use soap_server.Xsd.Elements.{XsdAttribute, AttributeUse, AnyElement, ElementFields}
use soap_server.Xsd.Types.{
  complex, simple, ComplexType, complex_type, ComplexContent, empty, complex_extension,
  complex_restriction, XsdElement, element, InlineType, no_inline, inline, from_list,
}
use soap_server.Xsd.Groups.{GroupContent, Group}
use soap_server.Xsd.Parse.Names.{
  resolve_qname, parse_min_occurs, parse_max_occurs, or_else, map_option, kind, Kind,
}
use soap_server.Xsd.Parse.Facets.{
  visit_attribute, visit_any, visit_simple_type, visit_simple_content, resolved_attribute,
}

abbrev is_true : Option Bytes → Bool
is_true none = false
is_true (some v) = v == bytes "true"

-- `visit_element` but for its inline type.
unfoldable pub element_fields : Element → ElementFields
element_fields node = record {
  name = node.attribute (bytes "name");
  type_ref = resolved_attribute node (bytes "type");
  min_occurs = parse_min_occurs node;
  max_occurs = parse_max_occurs node;
  nillable = is_true (node.attribute (bytes "nillable"));
  default = node.attribute (bytes "default");
  fixed = node.attribute (bytes "fixed");
  ref_attr = resolved_attribute node (bytes "ref");
}

-- The element that stands for a wildcard.
abbrev synthetic : AnyElement → XsdElement
synthetic any =
    element
      (record {
        name = some (bytes "__any__");
        type_ref = none;
        min_occurs = any.min_occurs;
        max_occurs = any.max_occurs;
        nillable = false;
        default = none;
        fixed = none;
        ref_attr = none;
      })
      no_inline

-- The attribute that stands for a reference to a group.
abbrev group_reference : QName → XsdAttribute
group_reference name = record {
  name = none;
  type_ref = none;
  use_attr = AttributeUse.optional;
  default = none;
  fixed = none;
  ref_attr = some name;
}

abbrev push_group : Element → List XsdAttribute → Option Bytes → List XsdAttribute
push_group node attrs none = attrs
push_group node attrs (some r) = attrs ++ group_reference (resolve_qname r node) ∷ []

abbrev pub extension_base : Element → QName
extension_base node = or_else (local []) (resolved_attribute node (bytes "base"))

-- What one child adds to the elements, given its inline type, if it is an element, and the
-- elements of its children, if it is a compositor.
abbrev pub particle : Kind → Element → InlineType → List XsdElement → List XsdElement
particle Kind.element node inline_type nested = element (element_fields node) inline_type ∷ []
particle Kind.any node inline_type nested = synthetic (visit_any node) ∷ []
particle Kind.sequence node inline_type nested = nested
particle Kind.choice node inline_type nested = nested
particle Kind.all node inline_type nested = nested
particle _ node inline_type nested = []

-- The content of an extension after one child, given the elements of its children.
abbrev pub extension_child : Kind → List XsdElement → ComplexContent → ComplexContent
extension_child Kind.sequence els content = ComplexContent.sequence (from_list els)
extension_child Kind.all els content = ComplexContent.all (from_list els)
extension_child Kind.choice els content = ComplexContent.choice (from_list els)
extension_child _ els content = content

unfoldable mutual
  pub visit_particle_children : Nodes → List XsdElement
  visit_particle_children Nodes.nil = []
  visit_particle_children (Nodes.element node kids rest) =
      particle (kind node) node (visit_inline_type kids) (visit_particle_children kids)
      ++ visit_particle_children rest
  visit_particle_children (Nodes.text s rest) = visit_particle_children rest
  visit_particle_children (Nodes.other rest) = visit_particle_children rest

  -- The `find_map` of `visit_element`.
  pub visit_inline_type : Nodes → InlineType
  visit_inline_type Nodes.nil = no_inline
  visit_inline_type (Nodes.element node kids rest) = elim (kind node) [
    | Kind.complex_type ↦
        inline (complex (visit_complex_children kids (node.attribute (bytes "name")) empty []))
    | Kind.simple_type ↦ inline (simple (visit_simple_type node kids))
    | _ ↦ visit_inline_type rest
  ]
  visit_inline_type (Nodes.text s rest) = visit_inline_type rest
  visit_inline_type (Nodes.other rest) = visit_inline_type rest

  -- The loop of `visit_complex_type`, with the variables `content` and `attributes`.
  pub visit_complex_children :
      Nodes → Option Bytes → ComplexContent → List XsdAttribute → ComplexType
  visit_complex_children Nodes.nil name content attrs = complex_type name content attrs
  visit_complex_children (Nodes.element node kids rest) name content attrs = elim (kind node) [
    | Kind.sequence ↦
        visit_complex_children rest name
          (ComplexContent.sequence (from_list (visit_particle_children kids))) attrs
    | Kind.all ↦
        visit_complex_children rest name
          (ComplexContent.all (from_list (visit_particle_children kids))) attrs
    | Kind.choice ↦
        visit_complex_children rest name
          (ComplexContent.choice (from_list (visit_particle_children kids))) attrs
    | Kind.complex_content ↦ visit_complex_children rest name (visit_complex_content kids) attrs
    | Kind.simple_content ↦ visit_complex_children rest name (visit_simple_content kids) attrs
    | Kind.attribute ↦ visit_complex_children rest name content (attrs ++ visit_attribute node ∷ [])
    | Kind.attribute_group ↦
        visit_complex_children rest name content
          (push_group node attrs (node.attribute (bytes "ref")))
    | _ ↦ visit_complex_children rest name content attrs
  ]
  visit_complex_children (Nodes.text s rest) name content attrs =
      visit_complex_children rest name content attrs
  visit_complex_children (Nodes.other rest) name content attrs =
      visit_complex_children rest name content attrs

  pub visit_complex_content : Nodes → ComplexContent
  visit_complex_content Nodes.nil = empty
  visit_complex_content (Nodes.element node kids rest) = elim (kind node) [
    | Kind.extension ↦ complex_extension (extension_base node) (visit_extension_children kids empty)
    | Kind.restriction ↦ elim (node.attribute (bytes "base")) [
      | some base ↦
          complex_restriction (resolve_qname base node) (visit_complex_restriction_content kids)
      | none ↦ visit_complex_content rest
    ]
    | _ ↦ visit_complex_content rest
  ]
  visit_complex_content (Nodes.text s rest) = visit_complex_content rest
  visit_complex_content (Nodes.other rest) = visit_complex_content rest

  -- The loop of `visit_extension`, with the variable `inner_content`.
  pub visit_extension_children : Nodes → ComplexContent → ComplexContent
  visit_extension_children Nodes.nil content = content
  visit_extension_children (Nodes.element node kids rest) content =
      visit_extension_children rest
        (extension_child (kind node) (visit_particle_children kids) content)
  visit_extension_children (Nodes.text s rest) content = visit_extension_children rest content
  visit_extension_children (Nodes.other rest) content = visit_extension_children rest content

  pub visit_complex_restriction_content : Nodes → ComplexContent
  visit_complex_restriction_content Nodes.nil = empty
  visit_complex_restriction_content (Nodes.element node kids rest) = elim (kind node) [
    | Kind.sequence ↦ ComplexContent.sequence (from_list (visit_particle_children kids))
    | Kind.all ↦ ComplexContent.all (from_list (visit_particle_children kids))
    | Kind.choice ↦ ComplexContent.choice (from_list (visit_particle_children kids))
    | _ ↦ visit_complex_restriction_content rest
  ]
  visit_complex_restriction_content (Nodes.text s rest) = visit_complex_restriction_content rest
  visit_complex_restriction_content (Nodes.other rest) = visit_complex_restriction_content rest

unfoldable pub visit_element : Element → Nodes → XsdElement
visit_element node kids = element (element_fields node) (visit_inline_type kids)

unfoldable pub visit_complex_type : Element → Nodes → ComplexType
visit_complex_type node kids = visit_complex_children kids (node.attribute (bytes "name")) empty []

unfoldable pub visit_extension : Element → Nodes → QName × ComplexContent
visit_extension node kids = (extension_base node, visit_extension_children kids empty)

-- The last compositor is a group's content.
unfoldable pub visit_group_content : Nodes → GroupContent → GroupContent
visit_group_content Nodes.nil content = content
visit_group_content (Nodes.element node kids rest) content =
    visit_group_content rest (elim (kind node) [
      | Kind.sequence ↦ GroupContent.sequence (visit_particle_children kids)
      | Kind.all ↦ GroupContent.all (visit_particle_children kids)
      | Kind.choice ↦ GroupContent.choice (visit_particle_children kids)
      | _ ↦ content
    ])
visit_group_content (Nodes.text s rest) content = visit_group_content rest content
visit_group_content (Nodes.other rest) content = visit_group_content rest content

unfoldable pub visit_group_def : Element → Nodes → Option Group
unfolding visit_group_content
visit_group_def node kids =
    map_option
      (λ name. record {
        name = name;
        content = visit_group_content kids (GroupContent.sequence []);
      })
      (node.attribute (bytes "name"))
