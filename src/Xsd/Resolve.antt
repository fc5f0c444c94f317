-- ===== src/Xsd/Resolve.antt =====
-- The resolution of one type in a flat map of schemas (src/xsd/resolver.rs). Groups and types refer to
-- each other by name: each such step takes a unit of fuel, and `none` is out of fuel.
use soap_server.Prelude.{
  ℕ, zero, suc, Bytes, bytes, Bool, false, Option, none, some, List, [], ◌∷◌, ◌++◌, Map, lookup,
  insert, contains, insert_set, str_eq, ◌==◌, if◌then◌else◌, Result, ok, err,
}
use soap_server.Qname.{QName, qname_eq, display}
use soap_server.Xsd.Elements.{XsdAttribute, AttributeGroup}
use soap_server.Xsd.Groups.{GroupContent, Group}
use soap_server.Xsd.Types.{
  XsdType, complex, simple, ComplexType, complex_type, ComplexContent, sequence, all, choice, empty,
  simple_content, complex_extension, complex_restriction, XsdElement, elements, from_list, fields,
  content,
}

abbrev pub group_elements : GroupContent → List XsdElement
group_elements (GroupContent.sequence els) = els
group_elements (GroupContent.all els) = els
group_elements (GroupContent.choice els) = els

-- `FlatTypeMap`
pub record FlatTypeMap : Type 0 where
  pub types : Map QName XsdType
  pub attribute_groups : Map QName AttributeGroup
  pub groups : Map QName Group
  pub elements : Map QName XsdElement

-- `SchemaError` of src/xsd/parser.rs.
pub data SchemaError : Type 0 where
  malformed_xml unknown_ref cycle_detected : Bytes → SchemaError

infixl 5 ◌>>=◌
abbrev ◌>>=◌ {ℓ κ} : {A : Type ℓ} {B : Type κ} → Option A → (A → Option B) → Option B
none >>= f = none
some a >>= f = f a

abbrev pub is_any : Option Bytes → Bool
is_any none = false
is_any (some name) = name == bytes "__any__"

module _ (flat : FlatTypeMap) where
  -- What a reference stands for; `inline` resolves the elements of a group.
  abbrev pub resolve_ref :
      (List XsdElement → Option (List XsdElement)) → QName → Option (List XsdElement)
  resolve_ref inline name = elim (lookup name flat.groups) [
    | some group ↦ inline (group_elements group.content)
    | none ↦ elim (lookup name flat.elements) [
      | some global_el ↦ some (global_el ∷ [])
      | none ↦ some []
    ]
  ]

  -- The body of the loop over elements.
  abbrev pub resolve_element :
      (List XsdElement → Option (List XsdElement)) → XsdElement → Option (List XsdElement)
  resolve_element inline el =
      if is_any (fields el).name
      then some (el ∷ [])
      else elim (fields el).ref_attr [ some name ↦ resolve_ref inline name | none ↦ some (el ∷ []) ]

  unfoldable pub resolve_each :
      (List XsdElement → Option (List XsdElement)) → List XsdElement → Option (List XsdElement)
  resolve_each inline [] = some []
  resolve_each inline (el ∷ els) = do
    first ← resolve_element inline el
    rest ← resolve_each inline els
    some (first ++ rest)

  unfoldable pub resolve_element_list : ℕ → List XsdElement → Option (List XsdElement)
  resolve_element_list zero els = none
  resolve_element_list (suc fuel) els = resolve_each (resolve_element_list fuel) els

  -- The loop over nested groups; `expand` expands one.
  abbrev pub expand_each :
      (AttributeGroup → Option (List XsdAttribute)) → List QName → Option (List XsdAttribute)
  expand_each expand [] = some []
  expand_each expand (name ∷ names) = elim (lookup name flat.attribute_groups) [
    | none ↦ expand_each expand names
    | some group ↦ (do first ← expand group; rest ← expand_each expand names; some (first ++ rest))
  ]

  unfoldable pub expand_attribute_group : ℕ → AttributeGroup → Option (List XsdAttribute)
  expand_attribute_group zero group = none
  expand_attribute_group (suc fuel) group = do
    nested ← expand_each (expand_attribute_group fuel) group.attribute_groups
    some (group.attributes ++ nested)

  abbrev pub resolve_attribute : ℕ → XsdAttribute → Option (List XsdAttribute)
  resolve_attribute fuel attr = elim attr.ref_attr [
    | none ↦ some (attr ∷ [])
    | some name ↦ elim (lookup name flat.attribute_groups) [
      | none ↦ some (attr ∷ [])
      | some group ↦ expand_attribute_group fuel group
    ]
  ]

  unfoldable pub resolve_attributes : ℕ → List XsdAttribute → Option (List XsdAttribute)
  resolve_attributes fuel [] = some []
  resolve_attributes fuel (attr ∷ attrs) = do
    first ← resolve_attribute fuel attr
    rest ← resolve_attributes fuel attrs
    some (first ++ rest)

-- The maps that the resolution fills: what is resolved, and what is being resolved.
pub record Progress : Type 0 where
  pub resolved : Map QName ComplexType
  pub resolving : List QName

-- Success with the progress made, a fault of the schema, or out of fuel.
abbrev pub Step {ℓ} : Type ℓ → Type ℓ
Step A = Option (Result SchemaError (A × Progress))

abbrev pub and_then {ℓ κ} : {A : Type ℓ} {B : Type κ} → Step A → (A → Progress → Step B) → Step B
and_then none f = none
and_then (some (err e)) f = some (err e)
and_then (some (ok (a, p))) f = f a p

abbrev pub lift {ℓ} : {A : Type ℓ} → Option A → Progress → Step A
lift none p = none
lift (some a) p = some (ok (a, p))

abbrev pub extract_elements : ComplexContent → List XsdElement
extract_elements (sequence els) = elements els
extract_elements (all els) = elements els
extract_elements (choice els) = elements els
extract_elements (complex_extension base c) = []
extract_elements (complex_restriction base c) = []
extract_elements (simple_content scd) = []
extract_elements empty = []

abbrev pub opaque_type : ComplexType
opaque_type = complex_type none empty []

-- `HashSet::remove`
abbrev pub remove : QName → List QName → List QName
remove q [] = []
remove q (n ∷ ns) = if n == q then remove q ns else n ∷ remove q ns

module _ (flat : FlatTypeMap) (groups_fuel : ℕ) where
  -- `resolve_content`; `named` is `resolve_named_type`.
  unfoldable pub resolve_content :
      (QName → Progress → Step ComplexType) → ComplexContent → Progress → Step ComplexContent
  resolve_content named (complex_extension base child) p = and_then (named base p) (λ base_ct p'.
      and_then (resolve_content named child p') (λ child_resolved p''. some (
        ok (
          sequence
              (from_list (extract_elements (content base_ct) ++ extract_elements child_resolved)),
          p'',
        ))))
  resolve_content named (complex_restriction base child) p = resolve_content named child p
  resolve_content named (sequence els) p =
      lift
        (do r ← resolve_element_list flat groups_fuel (elements els); some (sequence (from_list r)))
        p
  resolve_content named (all els) p =
      lift (do r ← resolve_element_list flat groups_fuel (elements els); some (all (from_list r))) p
  resolve_content named (choice els) p =
      lift
        (do r ← resolve_element_list flat groups_fuel (elements els); some (choice (from_list r))) p
  resolve_content named (simple_content scd) p = some (ok (simple_content scd, p))
  resolve_content named empty p = some (ok (empty, p))

  unfoldable pub resolve_complex_type :
      (QName → Progress → Step ComplexType) → ComplexType → Progress → Step ComplexType
  resolve_complex_type named (complex_type name c attrs) p =
      and_then (resolve_content named c p) (λ resolved p'.
        and_then (lift (resolve_attributes flat groups_fuel attrs) p')
          (λ attributes p''. some (ok (complex_type name resolved attributes, p''))))

  abbrev pub finish_named : QName → ComplexType → Progress → Step ComplexType
  finish_named name ct p = some (
      ok (ct, record { resolved = insert name ct p.resolved; resolving = remove name p.resolving }))

  abbrev pub resolve_raw :
      (QName → Progress → Step ComplexType) → QName → Option XsdType → Progress → Step ComplexType
  resolve_raw named name none p = some (ok (opaque_type, p))
  resolve_raw named name (some (simple st)) p = some (ok (opaque_type, p))
  resolve_raw named name (some (complex raw)) p =
      and_then
        (resolve_complex_type named raw (record p { resolving = insert_set name p.resolving }))
        (finish_named name)

  unfoldable pub resolve_named_type : ℕ → QName → Progress → Step ComplexType
  resolve_named_type zero name p = none
  resolve_named_type (suc fuel) name p = elim (lookup name p.resolved) [
    | some ct ↦ some (ok (ct, p))
    | none ↦
        if contains p.resolving name
        then some (err (cycle_detected (display name)))
        else resolve_raw (resolve_named_type fuel) name (lookup name flat.types) p
  ]
