-- ===== src/Xsd/Groups.antt =====
-- Named model groups (src/xsd/elements.rs).
use soap_server.Prelude.{Bytes, List}
use soap_server.Xsd.Types.{XsdElement}

pub data GroupContent : Type 0 where
  sequence all choice : List XsdElement → GroupContent

pub record Group : Type 0 where
  pub name : Bytes
  pub content : GroupContent
