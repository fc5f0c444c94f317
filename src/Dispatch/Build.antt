-- ===== src/Dispatch/Build.antt =====
-- `build_dispatch_table` and its helpers (src/dispatch.rs).
use soap_server.Prelude.{
  Bytes, not, Option, none, some, List, [], ◌∷◌, Map, lookup, insert, contains, insert_set, str_eq,
  if◌then◌else◌, Result, ok, err, ok_or, ◌>>=◌, ◌>>◌,
}
use soap_server.Qname
use soap_server.Qname.{QName, qname_eq, display}
use soap_server.Wsdl.Definitions.{is_rpc}
use soap_server.Wsdl.Resolved.{ResolvedWsdl}
use soap_server.Xsd.Types.{lookup_type}
use soap_server.Dispatch.Table.{
  DispatchEntry, DispatchTable, DispatchError, unregistered_operation, unknown_operation,
  unresolvable_input_type,
}
use soap_server.Dispatch.Operations.{
  BoundOp, or_some, collect_ops_for_service, resolve_input_element,
}

-- The type against which a document/literal input element is validated.
unfoldable pub validation_type_of :
    ResolvedWsdl → Bytes → Option QName → Result DispatchError (Option QName)
validation_type_of r op none = ok none
validation_type_of r op (some elem) = elim (lookup elem r.element_type_map) [
  | none ↦ ok none
  | some ty ↦ elim (lookup_type r.type_registry ty) [
    | none ↦ err (unresolvable_input_type op (display elem) (display ty))
    | some found ↦ ok (some ty)
  ]
]

-- The routing name and the validation type of an operation.
unfoldable pub input_types :
    ResolvedWsdl → BoundOp → Result DispatchError (Option QName × Option QName)
unfolding validation_type_of
input_types r op =
    if is_rpc op.style
    then (let q = some (Qname.new (or_some op.rpc_ns r.definition.target_namespace) op.name) in
        ok (q, q))
    else (let elem = resolve_input_element r op.name in
        (do val_type ← validation_type_of r op.name elem; ok (elem, val_type)))

module _ {H : Type 0} where
  -- `handlers.get(&op_name)`, or the default handler.
  abbrev pub choose : Option H → Option H → Option H
  choose (some h) default = some h
  choose none default = default

  abbrev pub index_element :
      Option QName → DispatchEntry H → Map QName (DispatchEntry H) → Map QName (DispatchEntry H)
  index_element none entry m = m
  index_element (some q) entry m = insert q entry m

  abbrev pub index_action :
      Bytes → DispatchEntry H → Map Bytes (DispatchEntry H) → Map Bytes (DispatchEntry H)
  index_action [] entry m = m
  index_action (c ∷ action) entry m = insert (c ∷ action) entry m

  -- Every handler must belong to an operation.
  unfoldable pub check_consumed : List Bytes → Map Bytes H → Result DispatchError (Unit {0})
  check_consumed consumed [] = ok tt
  check_consumed consumed ((name, h) ∷ handlers) =
      if contains consumed name
      then check_consumed consumed handlers
      else err (unknown_operation name)

  module _ (r : ResolvedWsdl) (handlers : Map Bytes H) (auth_bypass : List Bytes)
      (default_handler : Option H) where
    -- The entry of an operation.
    unfoldable pub entry_of : BoundOp → Result DispatchError (DispatchEntry H)
    entry_of op = do
      handler ←
          ok_or (unregistered_operation op.name) (choose (lookup op.name handlers) default_handler)
      (input_type, validation_type) ← input_types r op
      ok (record {
        handler = handler;
        auth_required = not (contains auth_bypass op.name);
        input_type = input_type;
        validation_type = validation_type;
      })

    -- The loop over the operations, with both indices and the names of the operations seen.
    unfoldable pub build_from :
        List BoundOp
        → Map QName (DispatchEntry H)
        → Map Bytes (DispatchEntry H)
        → List Bytes
        → Result DispatchError (DispatchTable H)
    build_from [] by_element by_action consumed = do
      check_consumed consumed handlers
      ok (record {
        by_element = by_element;
        by_action = by_action;
        default_handler = default_handler;
      })
    build_from (op ∷ ops) by_element by_action consumed = elim (entry_of op) [
      | err e ↦ err e
      | ok entry ↦
          build_from ops (index_element entry.input_type entry by_element)
            (index_action op.soap_action entry by_action) (insert_set op.name consumed)
    ]

    unfoldable pub build_dispatch_table_from_ops :
        List BoundOp → Result DispatchError (DispatchTable H)
    build_dispatch_table_from_ops ops = build_from ops [] [] []

    unfoldable pub build_dispatch_table : Result DispatchError (DispatchTable H)
    build_dispatch_table = build_dispatch_table_from_ops (collect_ops_for_service none r)

    unfoldable pub build_dispatch_table_for_service : Bytes → Result DispatchError (DispatchTable H)
    build_dispatch_table_for_service service =
        build_dispatch_table_from_ops (collect_ops_for_service (some service) r)
