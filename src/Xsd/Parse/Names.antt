-- ===== src/Xsd/Parse/Names.antt =====
-- Names, numbers and kinds of the nodes of a schema (src/xsd/parser.rs).
use soap_server.Prelude.{
  ℕ, Bytes, bytes, Bool, false, Option, none, some, str_eq, ◌==◌, if◌then◌else◌, split_at_byte,
  parse_u64,
}
use soap_server.Qname.{QName, new, local}
use soap_server.Xml.Dom.{Element}
use soap_server.Xsd.Elements.{MaxOccurs, bounded, unbounded}

abbrev pub xs_ns : Bytes
xs_ns = bytes "http://www.w3.org/2001/XMLSchema"

abbrev pub or_else {ℓ} : {A : Type ℓ} → A → Option A → A
or_else d none = d
or_else d (some a) = a

-- `Option::map` and `Option::and_then`
abbrev pub map_option {ℓ κ} : {A : Type ℓ} {B : Type κ} → (A → B) → Option A → Option B
map_option f none = none
map_option f (some a) = some (f a)

abbrev pub chain {ℓ κ} : {A : Type ℓ} {B : Type κ} → Option A → (A → Option B) → Option B
chain none f = none
chain (some a) f = f a

abbrev prefixed : Bytes → Bytes → Option Bytes → QName
prefixed prefix name (some uri) = new uri name
prefixed prefix name none = new prefix name

abbrev unprefixed : Bytes → Option Bytes → QName
unprefixed name (some uri) = new uri name
unprefixed name none = local name

-- A prefix that is not bound stands for itself.
unfoldable pub resolve_qname : Bytes → Element → QName
resolve_qname value node = elim (split_at_byte b':' value) [
  | some (prefix, name) ↦ prefixed prefix name (node.lookup_namespace_uri (some prefix))
  | none ↦ unprefixed value (node.lookup_namespace_uri none)
]

abbrev pub parse_u64_attr : Element → Bytes → ℕ → ℕ
parse_u64_attr node name default = or_else default (chain (node.attribute name) parse_u64)

abbrev pub parse_min_occurs : Element → ℕ
parse_min_occurs node = parse_u64_attr node (bytes "minOccurs") 1

abbrev max_of : Option Bytes → MaxOccurs
max_of none = bounded 1
max_of (some v) = if v == bytes "unbounded" then unbounded else bounded (or_else 1 (parse_u64 v))

abbrev pub parse_max_occurs : Element → MaxOccurs
parse_max_occurs node = max_of (node.attribute (bytes "maxOccurs"))

abbrev pub in_namespace : Bytes → Option Bytes → Bool
in_namespace ns none = false
in_namespace ns (some n) = n == ns

abbrev pub is_xs_element : Element → Bool
is_xs_element node = in_namespace xs_ns node.tag_namespace

-- `is_xs`
abbrev pub is_xs : Element → Bytes → Bool
is_xs node name = if is_xs_element node then node.tag == name else false

-- The names that the parser's matches on elements of the schema namespace know.
pub data Kind : Type 0 where
  complex_type simple_type element attribute_group group import include : Kind
  sequence all choice complex_content simple_content attribute any_attribute : Kind
  extension restriction list union any unknown : Kind

abbrev kind_of_name : Bytes → Kind
kind_of_name name =
    if name == bytes "complexType"
    then complex_type
    else if name == bytes "simpleType"
    then simple_type
    else if name == bytes "element"
    then element
    else if name == bytes "attributeGroup"
    then attribute_group
    else if name == bytes "group"
    then group
    else if name == bytes "import"
    then import
    else if name == bytes "include"
    then include
    else if name == bytes "sequence"
    then sequence
    else if name == bytes "all"
    then all
    else if name == bytes "choice"
    then choice
    else if name == bytes "complexContent"
    then complex_content
    else if name == bytes "simpleContent"
    then simple_content
    else if name == bytes "attribute"
    then attribute
    else if name == bytes "anyAttribute"
    then any_attribute
    else if name == bytes "extension"
    then extension
    else if name == bytes "restriction"
    then restriction
    else if name == bytes "list"
    then list
    else if name == bytes "union"
    then union
    else if name == bytes "any"
    then any
    else unknown

-- The guard on the namespace and the match on the name, which every loop makes.
unfoldable pub kind : Element → Kind
kind node = if is_xs_element node then kind_of_name node.tag else unknown

-- `qualify_name`
abbrev pub qualify_name : Bytes → Option Bytes → QName
qualify_name name none = local name
qualify_name name (some ns) = new ns name
