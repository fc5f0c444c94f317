-- ===== src/Xsd/Elements.antt =====
-- Attribute declarations and occurrence bounds (src/xsd/elements.rs).
use soap_server.Prelude.{ℕ, Bytes, Bool, Option, List}
use soap_server.Qname.{QName}

pub data MaxOccurs : Type 0 where
  bounded : ℕ → MaxOccurs
  unbounded : MaxOccurs

pub data AttributeUse : Type 0 where
  required optional prohibited : AttributeUse

pub record XsdAttribute : Type 0 where
  pub name : Option Bytes
  pub type_ref : Option QName
  pub use_attr : AttributeUse
  pub default : Option Bytes
  pub fixed : Option Bytes
  pub ref_attr : Option QName

pub record AttributeGroup : Type 0 where
  pub name : Bytes
  pub attributes : List XsdAttribute
  pub attribute_groups : List QName

-- The fields of an element declaration but its inline type, which `Types` adds.
pub record ElementFields : Type 0 where
  pub name : Option Bytes
  pub type_ref : Option QName
  pub min_occurs : ℕ
  pub max_occurs : MaxOccurs
  pub nillable : Bool
  pub default : Option Bytes
  pub fixed : Option Bytes
  pub ref_attr : Option QName

-- Wildcards.
pub data AnyNamespace : Type 0 where
  any_namespace other_namespace : AnyNamespace
  namespaces : List Bytes → AnyNamespace

pub data ProcessContents : Type 0 where
  strict lax skip : ProcessContents

pub record AnyElement : Type 0 where
  pub namespace : AnyNamespace
  pub process_contents : ProcessContents
  pub min_occurs : ℕ
  pub max_occurs : MaxOccurs

pub record AnyAttribute : Type 0 where
  pub namespace : AnyNamespace
  pub process_contents : ProcessContents
