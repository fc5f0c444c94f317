-- ===== src/Xsd/Layers.antt =====
-- The expansion of groups ends where they are layered (src/xsd/resolver.rs).
use soap_server.Prelude.{
  ℕ, zero, suc, ◌<◌, ◌≡◌, ◌≢◌, arith, Option, none, some, Option-cases, Bool-cases, inl, inr, List,
  [], ◌∷◌, lookup, All,
}
use soap_server.Qname.{QName, qname_eq}
use soap_server.Xsd.Elements.{XsdAttribute, AttributeGroup}
use soap_server.Xsd.Groups.{Group}
use soap_server.Xsd.Types.{XsdElement, fields}
use soap_server.Xsd.Resolve.{
  FlatTypeMap, is_any, group_elements, resolve_ref, resolve_element, resolve_each,
  resolve_element_list, expand_each, expand_attribute_group, resolve_attribute, resolve_attributes,
}

-- The element refers to nothing of a rank of `n` or more.
abbrev pub RefBelow : (QName → ℕ) → ℕ → XsdElement → Type 0
RefBelow rank n el = (r : QName) → (fields el).ref_attr ≡ some r → rank r < n

-- Each name has a rank below the depth, and a group refers to names of smaller ranks only.
pub record Layered (flat : FlatTypeMap) (depth : ℕ) : Type 0 where
  pub rank : QName → ℕ
  pub below : (name : QName) → rank name < depth
  pub groups :
      (name : QName) (g : Group)
      → lookup name flat.groups ≡ some g
      → All (RefBelow rank (rank name)) (group_elements g.content)
  pub attribute_groups :
      (name : QName) (g : AttributeGroup)
      → lookup name flat.attribute_groups ≡ some g
      → All (λ r. rank r < rank name) g.attribute_groups

-- The elements of a group of smaller rank are resolved.
abbrev ResolvesBelow : (QName → ℕ) → ℕ → (List XsdElement → Option (List XsdElement)) → Type 0
ResolvesBelow rank n inline =
    (els : List XsdElement) (m : ℕ) → m < n → All (RefBelow rank m) els → inline els ≢ none

module _ (flat : FlatTypeMap) (depth : ℕ) (layers : Layered flat depth) where
  module _ (n : ℕ) (inline : List XsdElement → Option (List XsdElement))
      (ends : ResolvesBelow layers.rank n inline) where
    resolve_ref-ne-none :
        (name : QName) → layers.rank name < n → resolve_ref flat inline name ≢ none
    resolve_ref-ne-none name h = elim (Option-cases (lookup name flat.groups)) [
      | inl absent ↦ ground arith
      | inr (g, found) ↦
          rw (found, resolve_ref)
            (ends (group_elements g.content) (layers.rank name) h (layers.groups name g found))
    ]

    resolve_element-ne-none :
        (el : XsdElement) → RefBelow layers.rank n el → resolve_element flat inline el ≢ none
    resolve_element-ne-none el h = elim (Bool-cases (is_any (fields el).name)) [
      | inl wildcard ↦ rw (wildcard, resolve_element) (λ p. cc)
      | inr named ↦ elim (Option-cases (fields el).ref_attr) [
        | inl none_given ↦ rw (named, none_given, resolve_element) (λ p. cc)
        | inr (r, given) ↦ rw (named, given, resolve_element) (resolve_ref-ne-none r (h r given))
      ]
    ]

    resolve_each-ne-none :
        (els : List XsdElement)
        → All (RefBelow layers.rank n) els
        → resolve_each flat inline els ≢ none
    unfolding resolve_each
    resolve_each-ne-none [] h = λ p. cc
    resolve_each-ne-none (el ∷ els) (h, hs) =
        let first = resolve_element-ne-none el h in
        let rest = resolve_each-ne-none els hs in ground arith

  resolve_element_list-ne-none :
      (fuel n : ℕ) (els : List XsdElement)
      → n < fuel
      → All (RefBelow layers.rank n) els
      → resolve_element_list flat fuel els ≢ none
  unfolding resolve_element_list
  resolve_element_list-ne-none zero n els b h = absurd (omega arith)
  resolve_element_list-ne-none (suc fuel) n els b h =
      resolve_each-ne-none n (resolve_element_list flat fuel)
        (λ inner m less below. resolve_element_list-ne-none fuel m inner (omega arith) below) els h

  every_RefBelow : (els : List XsdElement) → All (RefBelow layers.rank depth) els
  every_RefBelow [] = tt
  every_RefBelow (el ∷ els) = (λ r given. layers.below r, every_RefBelow els)

  pub elements-ne-none :
      (fuel : ℕ) (els : List XsdElement) → depth < fuel → resolve_element_list flat fuel els ≢ none
  elements-ne-none fuel els h = resolve_element_list-ne-none fuel depth els h (every_RefBelow els)

  module _ (n : ℕ) (expand : AttributeGroup → Option (List XsdAttribute))
      (ends : (name : QName) (g : AttributeGroup)
        → layers.rank name < n
        → lookup name flat.attribute_groups ≡ some g
        → expand g ≢ none) where
    expand_each-ne-none :
        (names : List QName)
        → All (λ r. layers.rank r < n) names
        → expand_each flat expand names ≢ none
    expand_each-ne-none [] h = λ p. cc
    expand_each-ne-none (name ∷ names) (h, hs) =
        let rest = expand_each-ne-none names hs in
        elim (Option-cases (lookup name flat.attribute_groups)) [
          | inl absent ↦ rw (absent, expand_each) rest
          | inr (g, found) ↦ let first = ends name g h found in ground arith
        ]

  expand-ne-none :
      (fuel : ℕ) (name : QName) (g : AttributeGroup)
      → layers.rank name < fuel
      → lookup name flat.attribute_groups ≡ some g
      → expand_attribute_group flat fuel g ≢ none
  unfolding expand_attribute_group
  expand-ne-none zero name g b found = absurd (omega arith)
  expand-ne-none (suc fuel) name g b found =
      let nested =
        expand_each-ne-none (layers.rank name) (expand_attribute_group flat fuel)
          (λ inner ig less at. expand-ne-none fuel inner ig (omega arith) at) g.attribute_groups
          (layers.attribute_groups name g found) in
      ground arith

  resolve_attribute-ne-none :
      (fuel : ℕ) (attr : XsdAttribute) → depth < fuel → resolve_attribute flat fuel attr ≢ none
  resolve_attribute-ne-none fuel attr h = elim (Option-cases attr.ref_attr) [
    | inl plain ↦ rw (plain, resolve_attribute) (λ p. cc)
    | inr (name, given) ↦ elim (Option-cases (lookup name flat.attribute_groups)) [
      | inl absent ↦ rw (given, absent, resolve_attribute) (λ p. cc)
      | inr (g, found) ↦
          let b = layers.below name in
          rw (given, found, resolve_attribute) (expand-ne-none fuel name g (omega arith) found)
    ]
  ]

  pub attributes-ne-none :
      (fuel : ℕ) (attrs : List XsdAttribute)
      → depth < fuel
      → resolve_attributes flat fuel attrs ≢ none
  unfolding resolve_attributes
  attributes-ne-none fuel [] h = λ p. cc
  attributes-ne-none fuel (attr ∷ attrs) h =
      let first = resolve_attribute-ne-none fuel attr h in
      let rest = attributes-ne-none fuel attrs h in ground arith
