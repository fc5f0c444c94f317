-- ===== src/Dispatch/Table.antt =====
-- Routing entries, the routing table and the errors of its construction (src/dispatch.rs). A
-- handler is an `Arc<dyn SoapHandler>`, of which the table knows nothing: its type is a parameter.
use soap_server.Prelude.{Bytes, Bool, Option, none, [], Map}
use soap_server.Qname.{QName}

pub record DispatchEntry (H : Type 0) : Type 0 where
  pub handler : H
  pub auth_required : Bool
  pub input_type : Option QName
  pub validation_type : Option QName

pub record DispatchTable (H : Type 0) : Type 0 where
  pub by_element : Map QName (DispatchEntry H)
  pub by_action : Map Bytes (DispatchEntry H)
  pub default_handler : Option H

-- `DispatchTable::empty`
abbrev pub empty : (H : Type 0) → DispatchTable H
empty H = record { by_element = []; by_action = []; default_handler = none }

pub data DispatchError : Type 0 where
  unregistered_operation : Bytes → DispatchError
  unknown_operation : Bytes → DispatchError
  unresolvable_input_type : (op element type_ref : Bytes) → DispatchError
