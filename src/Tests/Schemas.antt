-- ===== src/Tests/Schemas.antt =====
-- The resolution of types, on concrete schemas.
use soap_server.Prelude.{◌≡◌, refl, Bytes, bytes, false, none, some, [], ◌∷◌, lookup, str_beq}
use soap_server.Qname.{qname_beq}
use soap_server.Xsd.Elements.{bounded}
use soap_server.Xsd.Types.{
  ComplexType, complex_type, sequence, choice, XsdElement, element, no_inline, Elements, nil, cons,
  elements, content,
}
use soap_server.Xsd.Groups.{Group, GroupContent}
use soap_server.Xsd.Resolve.{FlatTypeMap, Progress, resolve_element_list}
use soap_server.Xsd.Extension.{recursive_group_never_ends}
use soap_server.Tests.Wsdl.{name}

abbrev declare : Bytes → XsdElement
declare n =
    element
      (record {
        name = some n;
        type_ref = none;
        min_occurs = 1;
        max_occurs = bounded 1;
        nillable = false;
        default = none;
        fixed = none;
        ref_attr = none;
      })
      no_inline

abbrev reference : XsdElement
reference =
    element
      (record {
        name = none;
        type_ref = none;
        min_occurs = 1;
        max_occurs = bounded 1;
        nillable = false;
        default = none;
        fixed = none;
        ref_attr = some (name (bytes "G"));
      })
      no_inline

-- A choice of `a` and `b`, that a type extends by `c`.
abbrev base_type : ComplexType
base_type =
    complex_type none (choice (cons (declare (bytes "a")) (cons (declare (bytes "b")) nil))) []

abbrev added : Elements
added = cons (declare (bytes "c")) nil

-- The group `G` consists of a reference to itself.
abbrev group : Group
group = record { name = bytes "G"; content = GroupContent.sequence (reference ∷ []) }

abbrev flat : FlatTypeMap
flat = record {
  types = [];
  attribute_groups = [];
  groups = (name (bytes "G"), group) ∷ [];
  elements = [];
}

abbrev progress : Progress
progress = record { resolved = (name (bytes "Base"), base_type) ∷ []; resolving = [] }

recursive_group_never_ends_example : resolve_element_list flat 9 (reference ∷ []) ≡ none
unfolding lookup qname_beq str_beq bytes
recursive_group_never_ends_example =
    recursive_group_never_ends flat 9 (name (bytes "G")) group reference [] refl refl refl refl
