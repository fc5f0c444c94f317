-- ===== src/Xsd/Types.antt =====
-- Types and content models (src/xsd/types.rs, with `XsdElement` of src/xsd/elements.rs).
-- A type holds elements and an element may hold an inline type: the types are one block, in
-- which `Elements` is `Vec<XsdElement>` and `InlineType` is `Option<Box<XsdType>>`.
use soap_server.Prelude.{ℕ, Bytes, Option, List, [], ◌∷◌, Map, lookup, insert}
use soap_server.Qname.{QName, qname_eq}
use soap_server.Xsd.Elements.{XsdAttribute, ElementFields}

pub data WhitespaceHandling : Type 0 where
  preserve replace collapse : WhitespaceHandling

pub record Restriction : Type 0 where
  pub base : QName
  pub enumeration : List Bytes
  pub min_inclusive : Option Bytes
  pub max_inclusive : Option Bytes
  pub min_exclusive : Option Bytes
  pub max_exclusive : Option Bytes
  pub min_length : Option ℕ
  pub max_length : Option ℕ
  pub length : Option ℕ
  pub pattern_facet : Option Bytes
  pub whitespace : Option WhitespaceHandling
  pub total_digits : Option ℕ
  pub fraction_digits : Option ℕ

pub record ListDef : Type 0 where
  pub item_type : QName

pub record UnionDef : Type 0 where
  pub member_types : List QName

pub record SimpleType : Type 0 where
  pub name : Option Bytes
  pub restriction : Option Restriction
  pub list : Option ListDef
  pub union : Option UnionDef

pub record SimpleContentDef : Type 0 where
  pub base : QName
  pub attributes : List XsdAttribute

mutual
  pub data XsdType : Type 0 where
    complex : ComplexType → XsdType
    simple : SimpleType → XsdType

  pub data ComplexType : Type 0 where
    complex_type : Option Bytes → ComplexContent → List XsdAttribute → ComplexType

  pub data ComplexContent : Type 0 where
    sequence all choice : Elements → ComplexContent
    empty : ComplexContent
    simple_content : SimpleContentDef → ComplexContent
    complex_extension complex_restriction : QName → ComplexContent → ComplexContent

  pub data XsdElement : Type 0 where
    element : ElementFields → InlineType → XsdElement

  pub data InlineType : Type 0 where
    no_inline : InlineType
    inline : XsdType → InlineType

  pub data Elements : Type 0 where
    nil : Elements
    cons : XsdElement → Elements → Elements

abbrev pub elements : Elements → List XsdElement
elements nil = []
elements (cons e es) = e ∷ elements es

abbrev pub from_list : List XsdElement → Elements
from_list [] = nil
from_list (e ∷ es) = cons e (from_list es)

abbrev pub fields : XsdElement → ElementFields
fields (element f t) = f

abbrev pub inline_type : XsdElement → InlineType
inline_type (element f t) = t

abbrev pub content : ComplexType → ComplexContent
content (complex_type name c attrs) = c

-- `TypeRegistry`: a map from names to types.
pub record TypeRegistry : Type 0 where
  pub types : Map QName XsdType

abbrev pub new : TypeRegistry
new = record { types = [] }

unfoldable pub insert_type : QName → XsdType → TypeRegistry → TypeRegistry
insert_type name ty r = record r { types = insert name ty r.types }

unfoldable pub lookup_type : TypeRegistry → QName → Option XsdType
lookup_type r name = lookup name r.types
