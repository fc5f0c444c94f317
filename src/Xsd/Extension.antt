-- ===== src/Xsd/Extension.antt =====
-- What the resolution of types yields (src/xsd/resolver.rs), and what the dispatcher then requires.
use soap_server.Prelude.{
  ℕ, zero, suc, ◌≡◌, refl, arith, false, none, some, List, [], ◌∷◌, ◌++◌, lookup,
}
use soap_server.Qname.{QName, qname_eq}
use soap_server.Xsd.Types.{XsdElement, fields, content}
use soap_server.Xsd.Groups.{Group}
use soap_server.Xsd.Resolve.{
  FlatTypeMap, is_any, group_elements, resolve_ref, resolve_element, resolve_each,
  resolve_element_list,
}
use soap_server.Dispatch.Validate.{required_names}

-- The element refers to nothing and is no wildcard.
abbrev pub IsDeclared : XsdElement → Type 0
IsDeclared el = (is_any (fields el).name ≡ false) × ((fields el).ref_attr ≡ none)

pub required_names-append :
    (a b : List XsdElement) → required_names (a ++ b) ≡ required_names a ++ required_names b
required_names-append [] b = refl
required_names-append (el ∷ a) b = ground (arith, required_names-append a b)

-- The expansion of a group whose first element is a reference to the group itself ends on no
-- fuel.
pub recursive_group_never_ends :
    (flat : FlatTypeMap) (fuel : ℕ) (name : QName) (group : Group) (el : XsdElement)
    (els : List XsdElement)
    → lookup name flat.groups ≡ some group
    → group_elements group.content ≡ el ∷ els
    → is_any (fields el).name ≡ false
    → (fields el).ref_attr ≡ some name
    → resolve_element_list flat fuel (el ∷ els) ≡ none
unfolding resolve_element_list resolve_each
recursive_group_never_ends flat zero name group el els g c a r = refl
recursive_group_never_ends flat (suc fuel) name group el els g c a r =
    let ih = recursive_group_never_ends flat fuel name group el els g c a r in
    let inline = resolve_element_list flat fuel in
    let reference : resolve_ref flat inline name ≡ none = rw (g, resolve_ref) (rw c ih) in
    let first : resolve_element flat inline el ≡ none = rw (a, r, resolve_element) reference in
    ground arith
