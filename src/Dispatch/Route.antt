-- ===== src/Dispatch/Route.antt =====
-- `route` of src/dispatch.rs.
use soap_server.Prelude.{Bytes, Option, none, some, lookup, str_eq, ok, err}
use soap_server.Qname.{QName, qname_eq, display}
use soap_server.Fault.{Fallible, action_not_supported}
use soap_server.Dispatch.Table.{DispatchEntry, DispatchTable}

module _ {H : Type 0} where
  abbrev by_action : DispatchTable H → Option Bytes → Option (DispatchEntry H)
  by_action table none = none
  by_action table (some action) = lookup action table.by_action

  -- By the body's name first, then by the SOAPAction.
  unfoldable pub route : DispatchTable H → QName → Option Bytes → Fallible (DispatchEntry H)
  route table name soap_action = elim (lookup name table.by_element) [
    | some entry ↦ ok entry
    | none ↦ elim (by_action table soap_action) [
      | some entry ↦ ok entry
      | none ↦ err (action_not_supported (display name))
    ]
  ]
