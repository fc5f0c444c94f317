-- ===== src/Wsdl/Written.antt =====
-- Nodes for port types, and what the parser reads from them (src/wsdl/parser.rs).
use soap_server.Prelude.{
  ◌≡◌, refl, Bytes, bytes, Option, none, some, List, [], ◌∷◌, ◌++◌, append_assoc, append-nil, All,
  str_eq, str_beq, ◌==◌, if◌then◌else◌, split_at_byte, ok,
}
use soap_server.Qname.{QName}
use soap_server.Xml.Dom.{Element, Nodes}
use soap_server.Wsdl.Definitions.{OperationMessage, OperationFault, Operation, PortType}
use soap_server.Wsdl.Parse.Names.{wsdl_ns, resolve_qname_str}
use soap_server.Wsdl.Parse.Abstract.{
  OperationParts, no_parts, style_of, parse_operation_message, parse_operation_fault,
  parse_operation_child, parse_operation_children, parse_operation, parse_operations,
  parse_port_type,
}

-- A name of no namespace is written as it is, any other with the prefix `n`.
abbrev reference_with : Option Bytes → Bytes → Bytes
reference_with none name = name
reference_with (some ns) name = bytes "n:" ++ name

abbrev pub reference : QName → Bytes
reference q = reference_with q.namespace q.local_name

-- An element with a name and a reference, at which the prefix `n` is bound for the reference.
abbrev pub node_for : Bytes → Option Bytes → Option QName → Element
node_for tag name message = record {
  tag_namespace = some wsdl_ns;
  tag = tag;
  attribute = λ n.
      if n == bytes "name"
      then name
      else if n == bytes "message"
      then (elim message [ none ↦ none | some q ↦ some (reference q) ])
      else none;
  lookup_namespace_uri = λ p. elim message [
    | none ↦ none
    | some q ↦ elim p [
      | none ↦ none
      | some prefix ↦ if prefix == bytes "n" then q.namespace else none
    ]
  ];
  namespaces = [];
  attributes = [];
}

-- A name of no namespace has no colon.
abbrev IsPlain : Option Bytes → Bytes → Type 0
IsPlain none name = split_at_byte b':' name ≡ none
IsPlain (some ns) name = Unit {0}

abbrev pub IsReadable : QName → Type 0
IsReadable q = IsPlain q.namespace q.local_name

resolve_reference_parts :
    (tag : Bytes) (name : Option Bytes) (ns : Option Bytes) (local_name : Bytes)
    → IsPlain ns local_name
    → let q : QName = record { namespace = ns; local_name = local_name } in
      resolve_qname_str (reference q) (node_for tag name (some q)) ≡ ok q
unfolding resolve_qname_str split_at_byte str_beq bytes
resolve_reference_parts tag name none local_name h = rw (h, resolve_qname_str)
resolve_reference_parts tag name (some ns) local_name h = refl

resolve_reference :
    (tag : Bytes) (name : Option Bytes) (q : QName)
    → IsReadable q
    → resolve_qname_str (reference q) (node_for tag name (some q)) ≡ ok q
resolve_reference tag name q h = resolve_reference_parts tag name q.namespace q.local_name h

abbrev message_node : Bytes → OperationMessage → Element
message_node tag m = node_for tag m.name (some m.message)

abbrev fault_node : OperationFault → Element
fault_node f = node_for (bytes "fault") (some f.name) (some f.message)

abbrev pub fault_nodes : List OperationFault → Nodes
fault_nodes [] = Nodes.nil
fault_nodes (f ∷ fs) = Nodes.element (fault_node f) Nodes.nil (fault_nodes fs)

abbrev optional_node : Bytes → Option OperationMessage → Nodes → Nodes
optional_node tag none rest = rest
optional_node tag (some m) rest = Nodes.element (message_node tag m) Nodes.nil rest

-- The children of an operation.
abbrev pub operation_nodes : Operation → Nodes
operation_nodes op =
    optional_node (bytes "input") op.input
      (optional_node (bytes "output") op.output (fault_nodes op.faults))

abbrev pub operations_nodes : List Operation → Nodes
operations_nodes [] = Nodes.nil
operations_nodes (op ∷ ops) =
    Nodes.element (node_for (bytes "operation") (some op.name) none) (operation_nodes op)
      (operations_nodes ops)

abbrev pub port_type_node : PortType → Element
port_type_node pt = node_for (bytes "portType") (some pt.name) none

abbrev IsReadableMessage : Option OperationMessage → Type 0
IsReadableMessage none = Unit {0}
IsReadableMessage (some m) = IsReadable m.message

abbrev IsReadableFault : OperationFault → Type 0
IsReadableFault f = IsReadable f.message

-- Its names can be written, and its style is that of its messages.
abbrev pub IsReadableOperation : Operation → Type 0
IsReadableOperation op =
    IsReadableMessage op.input
    × IsReadableMessage op.output
    × All IsReadableFault op.faults
    × (op.style ≡ style_of op.input op.output)

parse_message-node :
    (what tag : Bytes) (m : OperationMessage)
    → IsReadable m.message
    → parse_operation_message what (message_node tag m) ≡ ok m
unfolding parse_operation_message str_beq bytes
parse_message-node what tag m h = rw (resolve_reference tag m.name m.message h)

parse_fault-node :
    (f : OperationFault) → IsReadableFault f → parse_operation_fault (fault_node f) ≡ ok f
unfolding parse_operation_fault str_beq bytes
parse_fault-node f h = rw (resolve_reference (bytes "fault") (some f.name) f.message h)

parse_faults :
    (fs : List OperationFault) (parts : OperationParts)
    → All IsReadableFault fs
    → parse_operation_children (fault_nodes fs) parts
      ≡ ok (record parts { faults = parts.faults ++ fs })
unfolding parse_operation_children parse_operation_child str_beq bytes
parse_faults [] parts h = rw append-nil
parse_faults (f ∷ fs) parts (h, hs) =
    rw (parse_fault-node f h)
      (rw (parse_faults fs (record parts { faults = parts.faults ++ f ∷ [] }) hs) (rw append_assoc))

-- What the children of an operation leave in the variables of the loop.
abbrev parts_of :
    Option OperationMessage → Option OperationMessage → List OperationFault → OperationParts
parts_of input output faults = record { input = input; output = output; faults = faults }

parse_output :
    (input output : Option OperationMessage) (fs : List OperationFault)
    → IsReadableMessage output
    → All IsReadableFault fs
    → parse_operation_children
        (optional_node (bytes "output") output (fault_nodes fs))
        (parts_of input none [])
      ≡ ok (parts_of input output fs)
unfolding parse_operation_children parse_operation_child str_beq bytes
parse_output input none fs h hs = parse_faults fs (parts_of input none []) hs
parse_output input (some m) fs h hs =
    rw (parse_message-node (bytes "output/@message") (bytes "output") m h)
      (parse_faults fs (parts_of input (some m) []) hs)

parse_input :
    (input output : Option OperationMessage) (fs : List OperationFault)
    → IsReadableMessage input
    → IsReadableMessage output
    → All IsReadableFault fs
    → parse_operation_children
        (optional_node
          (bytes "input")
          input
          (optional_node (bytes "output") output (fault_nodes fs)))
        no_parts
      ≡ ok (parts_of input output fs)
unfolding parse_operation_children parse_operation_child str_beq bytes
parse_input none output fs h k hs = parse_output none output fs k hs
parse_input (some m) output fs h k hs =
    rw (parse_message-node (bytes "input/@message") (bytes "input") m h)
      (parse_output (some m) output fs k hs)

parse_operation-nodes :
    (op : Operation)
    → IsReadableOperation op
    → parse_operation (node_for (bytes "operation") (some op.name) none) (operation_nodes op)
      ≡ ok op
unfolding parse_operation str_beq bytes
parse_operation-nodes op (i, o, fs, style) =
    rw (parse_input op.input op.output op.faults i o fs) (rw (← style) refl)

parse_operations-nodes :
    (ops : List Operation)
    → All IsReadableOperation ops
    → parse_operations (operations_nodes ops) ≡ ok ops
unfolding parse_operations str_beq bytes
parse_operations-nodes [] h = refl
parse_operations-nodes (op ∷ ops) (h, hs) =
    rw (parse_operation-nodes op h) (rw (parse_operations-nodes ops hs) refl)

-- A port type whose operations have the style of their messages, and whose names of no
-- namespace contain no colon, is read back from the nodes that are written for it: names,
-- references, inputs, outputs, faults and their order.
pub parse_port_type-nodes :
    (pt : PortType)
    → All IsReadableOperation pt.operations
    → parse_port_type (port_type_node pt) (operations_nodes pt.operations) ≡ ok pt
unfolding parse_port_type str_beq bytes
parse_port_type-nodes pt h = rw (parse_operations-nodes pt.operations h)
