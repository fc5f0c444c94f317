-- ===== src/Server/Builder.antt =====
-- `ServerBuilder` (src/server.rs). Of `build` the steps are here that follow the resolution of the
-- WSDL. `W` is what the handlers act on.
use soap_server.Prelude.{
  ℕ, ◌*◌, Bytes, bytes, Option, none, some, List, [], ◌∷◌, ◌++◌, Map, keys, lookup, insert,
  contains, insert_set, str_eq, ltb, length, if◌then◌else◌, Result, ok, err, ok_or, map_err, ◌>>=◌,
  ◌>>◌,
}
use soap_server.Prelude.Int.{ℤ, pos}
use soap_server.Wsdl.Definitions.{WsdlDefinition, Service, Port, Binding, BindingOperation}
use soap_server.Wsdl.Resolved.{ResolvedWsdl}
use soap_server.Wsdl.Resolve.{WsdlLoader}
use soap_server.Dispatch.Table.{DispatchTable, DispatchError, unresolvable_input_type}
use soap_server.Dispatch.Table
use soap_server.Dispatch.Build.{build_dispatch_table, build_dispatch_table_for_service}
use soap_server.Wssec.NonceCache
use soap_server.Wssec.NonceCache.{NonceCache}
use soap_server.Server.Handler.{SoapHandler}
use soap_server.Server.Paths.{extract_path_from_url}
use soap_server.Server.Service.{AuthFn, SoapService}

pub record ServerBuilder (W : Type 0) : Type 0 where
  pub wsdl_bytes : Option Bytes
  pub wsdl_path : Option Bytes
  pub custom_loader : Option WsdlLoader
  pub handlers : Map Bytes (SoapHandler W)
  pub default_handler : Option (SoapHandler W)
  pub auth_fn : AuthFn
  pub auth_bypass : List Bytes
  pub mount_path : Bytes
  pub timestamp_tolerance_secs : ℤ
  pub nonce_cache_half_window_secs : ℕ
  pub max_body_bytes : ℕ

pub data BuildError : Type 0 where
  missing_wsdl : BuildError
  wsdl_io wsdl_parse : Bytes → BuildError
  unregistered_operation unknown_operation unknown_service : Bytes → BuildError

abbrev insert_all : List Bytes → List Bytes → List Bytes
insert_all [] set = set
insert_all (op ∷ ops) set = insert_all ops (insert_set op set)

-- Step 1, with `std::fs::read` as an argument: the bytes, and the path if they were read from it.
unfoldable pub load_wsdl :
    (Bytes → Result Bytes Bytes)
    → Option Bytes
    → Option Bytes
    → Result BuildError (Bytes × Option Bytes)
load_wsdl read_file (some wsdl) file = ok (wsdl, none)
load_wsdl read_file none (some file) = do
  wsdl ← map_err wsdl_io (read_file file)
  ok (wsdl, some file)
load_wsdl read_file none none = err missing_wsdl

-- The route of a service: the path of its first port, or its name in lower case. Unicode's lower
-- case is an argument.
unfoldable pub service_path : (Bytes → Bytes) → Bytes → List Port → Bytes
service_path to_lowercase name [] = bytes "/" ++ to_lowercase name
service_path to_lowercase name (port ∷ ports) = extract_path_from_url port.address

module _ {W : Type 0} where
  -- `ServerBuilder::new`
  abbrev pub new : ServerBuilder W
  new = record {
    wsdl_bytes = none;
    wsdl_path = none;
    custom_loader = none;
    handlers = [];
    default_handler = none;
    auth_fn = none;
    auth_bypass = [];
    mount_path = bytes "/soap";
    timestamp_tolerance_secs = pos 300;
    nonce_cache_half_window_secs = 150;
    max_body_bytes = 2 * 1024 * 1024;
  }

  abbrev pub from_wsdl_file : Bytes → ServerBuilder W
  from_wsdl_file path = record new { wsdl_path = some path }

  abbrev pub from_wsdl_bytes : Bytes → ServerBuilder W
  from_wsdl_bytes wsdl = record new { wsdl_bytes = some wsdl }

  abbrev pub from_wsdl_bytes_with_loader : Bytes → WsdlLoader → ServerBuilder W
  from_wsdl_bytes_with_loader wsdl loader = record new {
    wsdl_bytes = some wsdl;
    custom_loader = some loader;
  }

  abbrev pub handler : Bytes → SoapHandler W → ServerBuilder W → ServerBuilder W
  handler operation h b = record b { handlers = insert operation h b.handlers }

  abbrev pub default_handler : SoapHandler W → ServerBuilder W → ServerBuilder W
  default_handler h b = record b { default_handler = some h }

  abbrev pub auth : (Bytes → Option Bytes) → ServerBuilder W → ServerBuilder W
  auth f b = record b { auth_fn = some f }

  abbrev pub auth_bypass : List Bytes → ServerBuilder W → ServerBuilder W
  auth_bypass ops b = record b { auth_bypass = insert_all ops b.auth_bypass }

  abbrev pub path : Bytes → ServerBuilder W → ServerBuilder W
  path p b = record b { mount_path = p }

  abbrev pub timestamp_tolerance_secs : ℤ → ServerBuilder W → ServerBuilder W
  timestamp_tolerance_secs secs b = record b { timestamp_tolerance_secs = secs }

  abbrev pub max_body_bytes : ℕ → ServerBuilder W → ServerBuilder W
  max_body_bytes n b = record b { max_body_bytes = n }

abbrev pub build_error : DispatchError → BuildError
build_error (DispatchError.unregistered_operation op) = unregistered_operation op
build_error (DispatchError.unknown_operation op) = unknown_operation op
build_error (unresolvable_input_type op element type_ref) = wsdl_parse (
    bytes "Operation '"
    ++ op
    ++ bytes "' input element '"
    ++ element
    ++ bytes "' references unresolvable type '"
    ++ type_ref
    ++ bytes "'")

abbrev operation_names : List BindingOperation → List Bytes
operation_names [] = []
operation_names (op ∷ ops) = op.name ∷ operation_names ops

abbrev found_names : Option Binding → List Bytes
found_names none = []
found_names (some binding) = operation_names binding.operations

-- `svc_op_names`
unfoldable pub port_op_names : WsdlDefinition → List Port → List Bytes
port_op_names d [] = []
port_op_names d (port ∷ ports) =
    found_names (lookup port.binding.local_name d.bindings) ++ port_op_names d ports

abbrev get_service : WsdlDefinition → Bytes → Result BuildError Service
get_service d name = ok_or (unknown_service name) (lookup name d.services)

-- The first pass: the operations of all services, as a set.
unfoldable pub all_service_ops : WsdlDefinition → List Bytes → Result BuildError (List Bytes)
all_service_ops d [] = ok []
all_service_ops d (name ∷ names) = do
  svc ← get_service d name
  rest ← all_service_ops d names
  ok (port_op_names d svc.ports ++ rest)

module _ {H : Type 0} where
  -- No handler may be registered for an operation that no service has.
  unfoldable pub check_known : List Bytes → Map Bytes H → Result BuildError (Unit {0})
  check_known ops [] = ok tt
  check_known ops ((name, h) ∷ handlers) =
      if contains ops name then check_known ops handlers else err (unknown_operation name)

  abbrev add_found : Bytes → Option H → Map Bytes H → Map Bytes H
  add_found name none m = m
  add_found name (some h) m = insert name h m

  -- `svc_handlers`
  unfoldable pub service_handlers : Map Bytes H → List Bytes → Map Bytes H → Map Bytes H
  service_handlers handlers [] acc = acc
  service_handlers handlers (name ∷ names) acc =
      service_handlers handlers names (add_found name (lookup name handlers) acc)

  module _ (to_lowercase : Bytes → Bytes) (r : ResolvedWsdl) (handlers : Map Bytes H)
      (auth_bypass : List Bytes) (default_handler : Option H) where
    -- The table of one service, with its route.
    unfoldable pub service_table : Bytes → Result BuildError (Bytes × DispatchTable H)
    service_table name = do
      svc ← get_service r.definition name
      table ← map_err build_error (
          build_dispatch_table_for_service r
            (service_handlers handlers (port_op_names r.definition svc.ports) []) auth_bypass
            default_handler name)
      ok (service_path to_lowercase name svc.ports, table)

    -- The second pass. The maps are `service_tables` and `service_path_names`.
    unfoldable pub service_tables :
        List Bytes
        → Map Bytes (DispatchTable H)
        → Map Bytes Bytes
        → Result BuildError (Map Bytes (DispatchTable H) × Map Bytes Bytes)
    service_tables [] tables names = ok (tables, names)
    service_tables (name ∷ rest) tables names = do
      (path, table) ← service_table name
      service_tables rest (insert path table tables) (insert path name names)

    abbrev first_table : Map Bytes (DispatchTable H) → DispatchTable H
    first_table [] = Table.empty H
    first_table ((path, table) ∷ tables) = table

    unfoldable pub build_multi :
        List Bytes
        → Result BuildError (DispatchTable H × Map Bytes (DispatchTable H) × Map Bytes Bytes)
    build_multi names = do
      ops ← all_service_ops r.definition names
      check_known ops handlers
      (tables, path_names) ← service_tables names [] []
      ok (first_table tables, tables, path_names)

    unfoldable pub build_single :
        Result BuildError (DispatchTable H × Map Bytes (DispatchTable H) × Map Bytes Bytes)
    build_single = do
      table ← map_err build_error (build_dispatch_table r handlers auth_bypass default_handler)
      ok (table, [], [])

    -- Step 3.
    unfoldable pub build_tables :
        Result BuildError (DispatchTable H × Map Bytes (DispatchTable H) × Map Bytes Bytes)
    build_tables =
        let names = keys r.definition.services in
        if ltb 1 (length names) then build_multi names else build_single

-- What follows the resolution: the service, and its nonce cache as it is at the instant `now`.
unfoldable pub build_resolved :
    {W : Type 0}
    → (Bytes → Bytes)
    → ServerBuilder W
    → Bytes
    → ResolvedWsdl
    → ℕ
    → Result BuildError (SoapService W × NonceCache)
build_resolved to_lowercase b wsdl r now = do
  (table, tables, path_names) ←
      build_tables to_lowercase r b.handlers b.auth_bypass b.default_handler
  ok (
    record {
      dispatch_table = table;
      service_tables = tables;
      service_path_names = path_names;
      type_registry = r.type_registry;
      wsdl_raw = wsdl;
      auth_fn = b.auth_fn;
      timestamp_tolerance_secs = b.timestamp_tolerance_secs;
      mount_path = b.mount_path;
      max_body_bytes = b.max_body_bytes;
    },
    NonceCache.new now b.nonce_cache_half_window_secs,
  )
