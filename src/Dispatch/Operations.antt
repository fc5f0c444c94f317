-- ===== src/Dispatch/Operations.antt =====
-- `collect_ops_for_service` and `resolve_input_element` of src/dispatch.rs.
use soap_server.Prelude.{
  Bytes, true, false, Option, none, some, List, [], ◌∷◌, ◌++◌, Map, lookup, contains, str_eq, ◌==◌,
  if◌then◌else◌,
}
use soap_server.Qname.{QName}
use soap_server.Wsdl.Definitions.{
  WsdlDefinition, Service, Port, Binding, BindingOperation, BindingStyle, PortType, Operation,
  MessagePart, is_rpc,
}
use soap_server.Wsdl.Resolved.{ResolvedWsdl}

-- The tuple (op_name, soap_action, style, rpc_ns).
pub record BoundOp : Type 0 where
  pub name : Bytes
  pub soap_action : Bytes
  pub style : BindingStyle
  pub rpc_ns : Option Bytes

abbrev pub or_some : Option Bytes → Bytes → Bytes
or_some none d = d
or_some (some a) d = a

abbrev pub values {ℓ κ} : {K : Type ℓ} {V : Type κ} → Map K V → List V
values [] = []
values ((k, v) ∷ m) = v ∷ values m

abbrev bound_op : WsdlDefinition → BindingStyle → BindingOperation → BoundOp
bound_op d style op = record {
  name = op.name;
  soap_action = op.soap_action;
  style = style;
  rpc_ns = if is_rpc style then some (or_some op.input.body.namespace d.target_namespace) else none;
}

abbrev ops_of : WsdlDefinition → BindingStyle → List BindingOperation → List BoundOp
ops_of d style [] = []
ops_of d style (op ∷ ops) = bound_op d style op ∷ ops_of d style ops

abbrev binding_ops : WsdlDefinition → Binding → List BoundOp
binding_ops d b = ops_of d b.soap_binding.style b.operations

abbrev found_binding_ops : WsdlDefinition → Option Binding → List BoundOp
found_binding_ops d none = []
found_binding_ops d (some b) = binding_ops d b

unfoldable pub ports_ops : WsdlDefinition → List Port → List BoundOp
ports_ops d [] = []
ports_ops d (p ∷ ps) =
    found_binding_ops d (lookup p.binding.local_name d.bindings) ++ ports_ops d ps

unfoldable pub services_ops : WsdlDefinition → List Service → List BoundOp
services_ops d [] = []
services_ops d (s ∷ ss) = ports_ops d s.ports ++ services_ops d ss

-- The fallback: the operations of all bindings.
unfoldable pub bindings_ops : WsdlDefinition → List Binding → List BoundOp
bindings_ops d [] = []
bindings_ops d (b ∷ bs) = binding_ops d b ++ bindings_ops d bs

abbrev option_list : Option Service → List Service
option_list none = []
option_list (some s) = s ∷ []

unfoldable pub all_binding_ops : Option Bytes → WsdlDefinition → List BoundOp
unfolding ports_ops services_ops bindings_ops
all_binding_ops (some name) d = services_ops d (option_list (lookup name d.services))
all_binding_ops none d = elim (services_ops d (values d.services)) [
  | [] ↦ bindings_ops d (values d.bindings)
  | op ∷ ops ↦ op ∷ ops
]

-- The first operation of each name, in order.
unfoldable pub unique_from : List Bytes → List BoundOp → List BoundOp
unique_from seen [] = []
unique_from seen (op ∷ ops) = elim (contains seen op.name) [
  | true ↦ unique_from seen ops
  | false ↦ op ∷ unique_from (op.name ∷ seen) ops
]

unfoldable pub collect_ops_for_service : Option Bytes → ResolvedWsdl → List BoundOp
unfolding all_binding_ops unique_from
collect_ops_for_service service_name r = unique_from [] (all_binding_ops service_name r.definition)

abbrev or_else : Option Operation → Option Operation → Option Operation
or_else none b = b
or_else (some a) b = some a

unfoldable pub find_op : Bytes → List Operation → Option Operation
find_op name [] = none
find_op name (op ∷ ops) = if op.name == name then some op else find_op name ops

unfoldable pub find_op_in : Bytes → List PortType → Option Operation
unfolding find_op
find_op_in name [] = none
find_op_in name (p ∷ ps) = or_else (find_op name p.operations) (find_op_in name ps)

infixl 5 ◌>>=◌
abbrev ◌>>=◌ {ℓ κ} : {A : Type ℓ} {B : Type κ} → Option A → (A → Option B) → Option B
none >>= k = none
some a >>= k = k a

abbrev first : List MessagePart → Option MessagePart
first [] = none
first (p ∷ ps) = some p

-- The element of the first part of the operation's input message. The first operation of the name
-- decides: where it lacks one of these, there is none.
unfoldable pub resolve_input_element : ResolvedWsdl → Bytes → Option QName
unfolding find_op_in
resolve_input_element r op_name = do
  op ← find_op_in op_name (values r.definition.port_types)
  input ← op.input
  message ← lookup input.message.local_name r.definition.messages
  part ← first message.parts
  part.element
