-- ===== src/Tests/Dispatch.antt =====
-- Routing and validation, on a WSDL with one operation.
use soap_server.Prelude.{
  ◌≡◌, refl, ◌↔◌, ◌⊎◌, Bytes, bytes, true, none, some, [], ◌∷◌, Map, ok, lookup, insert, contains,
  insert_set, str_beq, from_utf8,
}
use soap_server.Qname.{qname_beq, qname_eq}
use soap_server.Dispatch.Table.{DispatchEntry, DispatchTable}
use soap_server.Dispatch.Operations.{BoundOp, resolve_input_element, find_op_in, find_op}
use soap_server.Dispatch.Build.{
  build_dispatch_table_from_ops, build_from, entry_of, input_types, validation_type_of,
  check_consumed,
}
use soap_server.Dispatch.Route.{route}
use soap_server.Dispatch.Entries.{Among, Serves, route-Serves}
use soap_server.Dispatch.Validate.{validate_request}
use soap_server.Dispatch.Children.{HasRequired, valid_iff}
use soap_server.Envelope.Tree.{element, events}
use soap_server.Xsd.Types.{lookup_type}
use soap_server.Tests.Wsdl.{name, ping, resolved, registry, ping_kids, tag_name}

abbrev op : BoundOp
op = record {
  name = ping;
  soap_action = bytes "act";
  style = soap_server.Wsdl.Definitions.document;
  rpc_ns = none;
}

-- The handler of the operation is a number.
abbrev handlers : Map Bytes Bytes
handlers = (ping, bytes "h") ∷ []

abbrev entry : DispatchEntry Bytes
entry = record {
  handler = bytes "h";
  auth_required = true;
  input_type = some (name ping);
  validation_type = some (name ping);
}

abbrev table : DispatchTable Bytes
table = record {
  by_element = (name ping, entry) ∷ [];
  by_action = (bytes "act", entry) ∷ [];
  default_handler = none;
}

route-Serves_example :
    (o : BoundOp) × Among o (op ∷ [])
    × Serves resolved handlers [] none o entry
    × ((entry.input_type ≡ some (name ping)) ⊎ (lookup (name ping) table.by_element ≡ none))
unfolding build_dispatch_table_from_ops build_from entry_of input_types validation_type_of
    check_consumed resolve_input_element find_op_in find_op lookup_type route lookup insert contains
    insert_set qname_beq str_beq bytes
route-Serves_example =
    route-Serves resolved handlers [] none (op ∷ []) table (name ping) none entry refl refl

valid_iff_example :
    (validate_request
        (λ s. s)
        (events (element (tag_name (bytes "urn:t") ping) ping_kids) [])
        registry
        (some (name ping))
      ≡ ok tt)
    ↔ HasRequired (λ s. s) (lookup_type registry (name ping)) ping_kids
unfolding bytes from_utf8
valid_iff_example =
    valid_iff (λ s. s) (tag_name (bytes "urn:t") ping) ping_kids registry (name ping) (refl, tt)
