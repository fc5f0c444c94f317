-- ===== src/Xsd/Parse/Facets.antt =====
-- Attributes, wildcards and simple types (src/xsd/parser.rs). The argument `context`, which the
-- source passes along and does not use, is left out.
use soap_server.Prelude.{
  ℕ, Bytes, bytes, Option, none, some, List, [], ◌∷◌, ◌++◌, map, str_eq, ◌==◌, if◌then◌else◌,
  parse_u64, split_whitespace,
}
use soap_server.Qname.{QName, local}
use soap_server.Xml.Dom.{Element, Nodes}
use soap_server.Xsd.Elements.{
  XsdAttribute, AttributeUse, AttributeGroup, AnyNamespace, any_namespace, other_namespace,
  namespaces, ProcessContents, strict, lax, skip, AnyElement, AnyAttribute,
}
use soap_server.Xsd.Types.{
  WhitespaceHandling, preserve, replace, collapse, Restriction, ListDef, UnionDef, SimpleType,
  ComplexContent, empty, simple_content,
}
use soap_server.Xsd.Parse.Names.{
  resolve_qname, parse_min_occurs, parse_max_occurs, is_xs, is_xs_element, or_else, map_option,
  chain, kind, Kind,
}

abbrev use_of : Option Bytes → AttributeUse
use_of none = AttributeUse.optional
use_of (some v) =
    if v == bytes "required"
    then AttributeUse.required
    else if v == bytes "prohibited"
    then AttributeUse.prohibited
    else AttributeUse.optional

abbrev pub resolved_attribute : Element → Bytes → Option QName
resolved_attribute node name = map_option (λ v. resolve_qname v node) (node.attribute name)

unfoldable pub visit_attribute : Element → XsdAttribute
visit_attribute node = record {
  name = node.attribute (bytes "name");
  type_ref = resolved_attribute node (bytes "type");
  use_attr = use_of (node.attribute (bytes "use"));
  default = node.attribute (bytes "default");
  fixed = node.attribute (bytes "fixed");
  ref_attr = resolved_attribute node (bytes "ref");
}

abbrev any_namespace_of : Option Bytes → AnyNamespace
any_namespace_of none = any_namespace
any_namespace_of (some v) =
    if v == bytes "##any"
    then any_namespace
    else if v == bytes "##other"
    then other_namespace
    else namespaces (split_whitespace v)

abbrev process_contents_of : Option Bytes → ProcessContents
process_contents_of none = strict
process_contents_of (some v) =
    if v == bytes "lax" then lax else if v == bytes "skip" then skip else strict

unfoldable pub visit_any : Element → AnyElement
visit_any node = record {
  namespace = any_namespace_of (node.attribute (bytes "namespace"));
  process_contents = process_contents_of (node.attribute (bytes "processContents"));
  min_occurs = parse_min_occurs node;
  max_occurs = parse_max_occurs node;
}

unfoldable pub visit_any_attribute : Element → AnyAttribute
visit_any_attribute node = record {
  namespace = any_namespace_of (node.attribute (bytes "namespace"));
  process_contents = process_contents_of (node.attribute (bytes "processContents"));
}

-- Facets.
abbrev whitespace_of : Option Bytes → Option WhitespaceHandling
whitespace_of none = none
whitespace_of (some v) =
    if v == bytes "preserve"
    then some preserve
    else if v == bytes "replace"
    then some replace
    else if v == bytes "collapse"
    then some collapse
    else none

abbrev push_value : List Bytes → Option Bytes → List Bytes
push_value values none = values
push_value values (some v) = values ++ v ∷ []

abbrev facet_value : Element → Option Bytes
facet_value node = node.attribute (bytes "value")

abbrev facet_number : Element → Option ℕ
facet_number node = chain (facet_value node) parse_u64

-- The match on a facet's name.
unfoldable pub apply_facet : Element → Restriction → Restriction
apply_facet node r =
    if node.tag == bytes "enumeration"
    then record r { enumeration = push_value r.enumeration (facet_value node) }
    else if node.tag == bytes "minInclusive"
    then record r { min_inclusive = facet_value node }
    else if node.tag == bytes "maxInclusive"
    then record r { max_inclusive = facet_value node }
    else if node.tag == bytes "minExclusive"
    then record r { min_exclusive = facet_value node }
    else if node.tag == bytes "maxExclusive"
    then record r { max_exclusive = facet_value node }
    else if node.tag == bytes "minLength"
    then record r { min_length = facet_number node }
    else if node.tag == bytes "maxLength"
    then record r { max_length = facet_number node }
    else if node.tag == bytes "length"
    then record r { length = facet_number node }
    else if node.tag == bytes "pattern"
    then record r { pattern_facet = facet_value node }
    else if node.tag == bytes "whiteSpace"
    then record r { whitespace = whitespace_of (facet_value node) }
    else if node.tag == bytes "totalDigits"
    then record r { total_digits = facet_number node }
    else if node.tag == bytes "fractionDigits"
    then record r { fraction_digits = facet_number node }
    else r

abbrev pub visit_facet : Element → Restriction → Restriction
visit_facet node r = if is_xs_element node then apply_facet node r else r

unfoldable pub visit_facets : Nodes → Restriction → Restriction
visit_facets Nodes.nil r = r
visit_facets (Nodes.element node kids rest) r = visit_facets rest (visit_facet node r)
visit_facets (Nodes.text s rest) r = visit_facets rest r
visit_facets (Nodes.other rest) r = visit_facets rest r

abbrev pub no_facets : QName → Restriction
no_facets base = record {
  base = base;
  enumeration = [];
  min_inclusive = none;
  max_inclusive = none;
  min_exclusive = none;
  max_exclusive = none;
  min_length = none;
  max_length = none;
  length = none;
  pattern_facet = none;
  whitespace = none;
  total_digits = none;
  fraction_digits = none;
}

unfoldable pub visit_restriction : Element → Nodes → Restriction
unfolding visit_facets
visit_restriction node kids =
    visit_facets kids (no_facets (or_else (local []) (resolved_attribute node (bytes "base"))))

unfoldable pub visit_list : Element → ListDef
visit_list node = record {
  item_type = or_else (local []) (resolved_attribute node (bytes "itemType"));
}

abbrev resolve_members : Element → Bytes → List QName
resolve_members node v = map (λ t. resolve_qname t node) (split_whitespace v)

unfoldable pub visit_union : Element → UnionDef
visit_union node = record {
  member_types =
      or_else [] (map_option (resolve_members node) (node.attribute (bytes "memberTypes")));
}

-- The loop over the children of a simple type.
unfoldable pub visit_simple_children : Nodes → SimpleType → SimpleType
visit_simple_children Nodes.nil st = st
visit_simple_children (Nodes.element node kids rest) st =
    visit_simple_children rest (elim (kind node) [
      | Kind.restriction ↦ record st { restriction = some (visit_restriction node kids) }
      | Kind.list ↦ record st { list = some (visit_list node) }
      | Kind.union ↦ record st { union = some (visit_union node) }
      | _ ↦ st
    ])
visit_simple_children (Nodes.text s rest) st = visit_simple_children rest st
visit_simple_children (Nodes.other rest) st = visit_simple_children rest st

unfoldable pub visit_simple_type : Element → Nodes → SimpleType
unfolding visit_simple_children
visit_simple_type node kids =
    visit_simple_children kids (record {
      name = node.attribute (bytes "name");
      restriction = none;
      list = none;
      union = none;
    })

-- The attributes of an extension of simple content.
unfoldable pub visit_attributes : Nodes → List XsdAttribute
visit_attributes Nodes.nil = []
visit_attributes (Nodes.element node kids rest) =
    let more = visit_attributes rest in
    if is_xs node (bytes "attribute") then visit_attribute node ∷ more else more
visit_attributes (Nodes.text s rest) = visit_attributes rest
visit_attributes (Nodes.other rest) = visit_attributes rest

-- The first extension that names a base is the content.
unfoldable pub visit_simple_content : Nodes → ComplexContent
visit_simple_content Nodes.nil = empty
visit_simple_content (Nodes.element node kids rest) = elim (kind node) [
  | Kind.extension ↦ elim (node.attribute (bytes "base")) [
    | some base ↦
        simple_content
          (record { base = resolve_qname base node; attributes = visit_attributes kids })
    | none ↦ visit_simple_content rest
  ]
  | _ ↦ visit_simple_content rest
]
visit_simple_content (Nodes.text s rest) = visit_simple_content rest
visit_simple_content (Nodes.other rest) = visit_simple_content rest

abbrev push_reference : Element → List QName → Option Bytes → List QName
push_reference node names none = names
push_reference node names (some r) = names ++ resolve_qname r node ∷ []

unfoldable pub visit_group_children : Nodes → AttributeGroup → AttributeGroup
visit_group_children Nodes.nil g = g
visit_group_children (Nodes.element node kids rest) g =
    visit_group_children rest (elim (kind node) [
      | Kind.attribute ↦ record g { attributes = g.attributes ++ visit_attribute node ∷ [] }
      | Kind.attribute_group ↦ record g {
        attribute_groups = push_reference node g.attribute_groups (node.attribute (bytes "ref"));
      }
      | _ ↦ g
    ])
visit_group_children (Nodes.text s rest) g = visit_group_children rest g
visit_group_children (Nodes.other rest) g = visit_group_children rest g

unfoldable pub visit_attribute_group_def : Element → Nodes → Option AttributeGroup
unfolding visit_group_children
visit_attribute_group_def node kids =
    map_option
      (λ name.
        visit_group_children kids (record { name = name; attributes = []; attribute_groups = [] }))
      (node.attribute (bytes "name"))
