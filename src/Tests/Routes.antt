-- ===== src/Tests/Routes.antt =====
-- Paths, routes and addresses, on concrete inputs.
use soap_server.Prelude.{
  ◌≡◌, refl, ok, Bytes, bytes, true, none, some, [], ◌∷◌, Map, contains, lookup, insert, insert_set,
  str_beq, utf8_or_empty, str_eq, strip_prefix,
}
use soap_server.Qname.{qname_beq}
use soap_server.Xml.{start, empty, end_tag}
use soap_server.Dispatch.Table.{DispatchTable, DispatchEntry}
use soap_server.Dispatch.Operations.{
  collect_ops_for_service, all_binding_ops, ports_ops, services_ops, unique_from,
  resolve_input_element, find_op_in, find_op,
}
use soap_server.Dispatch.Build.{
  build_dispatch_table_for_service, build_dispatch_table_from_ops, build_from, entry_of,
  input_types, validation_type_of, check_consumed,
}
use soap_server.Xsd.Types.{lookup_type}
use soap_server.Envelope.Tree.{Name, to_tag, element, void, nil, cons, events}
use soap_server.Wsdl.Address.{rewrite_tag, rewrite_matched, outside, name_attr, name_of}
use soap_server.Wsdl.Ports.{port_rewritten, empty_port_leaks, written_all, change, HasNoPort}
use soap_server.Server.Paths.{extract_path_from_url, after_scheme, from_slash}
use soap_server.Server.Builder.{service_table, service_handlers, port_op_names, service_path}
use soap_server.Tests.Wsdl.{name, ping, resolved}

abbrev tag : Bytes → Bytes → Name
tag local name = record {
  namespace = none;
  qualified = local;
  local_name = local;
  attributes = record { key = bytes "name"; value = name } ∷ [];
}

abbrev address : Name
address = tag (bytes "address") (bytes "x")

port_rewritten_example :
    rewrite_matched
      (λ s. s)
      (bytes "P" ∷ [])
      (bytes "u")
      (events (element (tag (bytes "port") (bytes "P")) (cons (void address) nil)) [])
      outside
    ≡ start (to_tag (tag (bytes "port") (bytes "P")))
      ∷ written_all
          (change
            (λ s. s)
            (bytes "P" ∷ [])
            (bytes "u")
            (contains (bytes "P" ∷ []) (name_of (to_tag (tag (bytes "port") (bytes "P"))))))
          (cons (void address) nil)
          (end_tag (bytes "port")
            ∷ rewrite_matched (λ s. s) (bytes "P" ∷ []) (bytes "u") [] outside)
unfolding HasNoPort utf8_or_empty bytes str_beq
port_rewritten_example =
    port_rewritten (λ s. s) (bytes "P" ∷ []) (bytes "u") (tag (bytes "port") (bytes "P"))
      (cons (void address) nil) [] refl (refl, tt)

empty_port_leaks_example :
    rewrite_matched
      (λ s. s)
      (bytes "P" ∷ [])
      (bytes "u")
      (events
        (void (tag (bytes "port") (bytes "P")))
        (events (element (tag (bytes "port") (bytes "Q")) (cons (void address) nil)) []))
      outside
    ≡ empty (to_tag (tag (bytes "port") (bytes "P")))
      ∷ start (to_tag (tag (bytes "port") (bytes "Q")))
      ∷ empty (rewrite_tag (λ s. s) (bytes "u") (to_tag address))
      ∷ end_tag (bytes "port")
      ∷ rewrite_matched (λ s. s) (bytes "P" ∷ []) (bytes "u") [] outside
unfolding contains name_attr utf8_or_empty bytes str_beq
empty_port_leaks_example =
    empty_port_leaks (λ s. s) (bytes "P" ∷ []) (bytes "u") (tag (bytes "port") (bytes "P"))
      (tag (bytes "port") (bytes "Q")) address [] refl refl refl refl refl

abbrev handlers : Map Bytes Bytes
handlers = (ping, bytes "h") ∷ []

abbrev entry : DispatchEntry Bytes
entry = record {
  handler = bytes "h";
  auth_required = true;
  input_type = some (name ping);
  validation_type = some (name ping);
}

abbrev table : DispatchTable Bytes
table = record {
  by_element = (name ping, entry) ∷ [];
  by_action = (bytes "act", entry) ∷ [];
  default_handler = none;
}

service_S : service_table (λ s. s) resolved handlers [] none (bytes "S") ≡ ok (bytes "/s", table)
unfolding service_table build_dispatch_table_for_service build_dispatch_table_from_ops build_from
    entry_of input_types validation_type_of check_consumed collect_ops_for_service all_binding_ops
    ports_ops services_ops unique_from resolve_input_element find_op_in find_op lookup_type
    service_handlers port_op_names service_path extract_path_from_url after_scheme from_slash
    strip_prefix lookup insert contains insert_set qname_beq str_beq bytes
service_S = refl
