-- ===== src/Wsdl/Parse/Abstract.antt =====
-- Imports, messages, port types, services and ports (src/wsdl/parser.rs). Of these loops only the
-- names of the children matter, not their namespace.
use soap_server.Prelude.{
  Bytes, bytes, Option, none, some, List, [], ◌∷◌, ◌++◌, str_eq, ◌==◌, if◌then◌else◌, Result, ok,
  ◌>>=◌,
}
use soap_server.Xml.Dom.{Element, Nodes}
use soap_server.Wsdl.Definitions.{
  WsdlImport, MessagePart, Message, OperationMessage, OperationFault, OperationStyle, one_way,
  request_response, notification, Operation, PortType, Port, Service,
}
use soap_server.Wsdl.Parse.Names.{
  WsdlError, or_default, required, resolve_qname_str, resolve_optional,
}

unfoldable pub parse_import : Element → WsdlImport
parse_import node = record {
  namespace = or_default [] (node.attribute (bytes "namespace"));
  location = node.attribute (bytes "location");
}

-- Names are resolved in the context of the message, not of the part.
unfoldable pub parse_message_part : Element → Element → Result WsdlError MessagePart
parse_message_part node parent = do
  name ← required (bytes "part/@name") node (bytes "name")
  element ← resolve_optional (node.attribute (bytes "element")) parent
  type_ref ← resolve_optional (node.attribute (bytes "type")) parent
  ok (record { name = name; element = element; type_ref = type_ref })

-- One child's result before those of the rest, if it is wanted.
abbrev pub collect :
    {A : Type 0} → Result WsdlError A → Result WsdlError (List A) → Result WsdlError (List A)
collect first rest = do a ← first; more ← rest; ok (a ∷ more)

unfoldable pub parse_parts : Element → Nodes → Result WsdlError (List MessagePart)
parse_parts parent Nodes.nil = ok []
parse_parts parent (Nodes.element node kids more) =
    let rest = parse_parts parent more in
    if node.tag == bytes "part" then collect (parse_message_part node parent) rest else rest
parse_parts parent (Nodes.text s more) = parse_parts parent more
parse_parts parent (Nodes.other more) = parse_parts parent more

unfoldable pub parse_message : Element → Nodes → Result WsdlError Message
parse_message node kids = do
  name ← required (bytes "message/@name") node (bytes "name")
  parts ← parse_parts node kids
  ok (record { name = name; parts = parts })

-- An operation's `input` or `output`.
unfoldable pub parse_operation_message : Bytes → Element → Result WsdlError OperationMessage
parse_operation_message what node = do
  attr ← required what node (bytes "message")
  message ← resolve_qname_str attr node
  ok (record { name = node.attribute (bytes "name"); message = message })

unfoldable pub parse_operation_fault : Element → Result WsdlError OperationFault
parse_operation_fault node = do
  name ← required (bytes "fault/@name") node (bytes "name")
  attr ← required (bytes "fault/@message") node (bytes "message")
  message ← resolve_qname_str attr node
  ok (record { name = name; message = message })

-- The variables of the loop of `parse_operation`.
pub record OperationParts : Type 0 where
  pub input : Option OperationMessage
  pub output : Option OperationMessage
  pub faults : List OperationFault

unfoldable pub parse_operation_child : Element → OperationParts → Result WsdlError OperationParts
parse_operation_child node parts =
    if node.tag == bytes "input"
    then (do
      m ← parse_operation_message (bytes "input/@message") node
      ok (record parts { input = some m }))
    else if node.tag == bytes "output"
    then (do
      m ← parse_operation_message (bytes "output/@message") node
      ok (record parts { output = some m }))
    else if node.tag == bytes "fault"
    then (do f ← parse_operation_fault node; ok (record parts { faults = parts.faults ++ f ∷ [] }))
    else ok parts

unfoldable pub parse_operation_children : Nodes → OperationParts → Result WsdlError OperationParts
parse_operation_children Nodes.nil parts = ok parts
parse_operation_children (Nodes.element node kids rest) parts = do
  next ← parse_operation_child node parts
  parse_operation_children rest next
parse_operation_children (Nodes.text s rest) parts = parse_operation_children rest parts
parse_operation_children (Nodes.other rest) parts = parse_operation_children rest parts

abbrev pub style_of : Option OperationMessage → Option OperationMessage → OperationStyle
style_of (some i) (some o) = request_response
style_of (some i) none = one_way
style_of none (some o) = notification
style_of none none = one_way

abbrev pub no_parts : OperationParts
no_parts = record { input = none; output = none; faults = [] }

abbrev pub operation_of : Bytes → OperationParts → Operation
operation_of name parts = record {
  name = name;
  input = parts.input;
  output = parts.output;
  faults = parts.faults;
  style = style_of parts.input parts.output;
}

unfoldable pub parse_operation : Element → Nodes → Result WsdlError Operation
parse_operation node kids = do
  name ← required (bytes "operation/@name") node (bytes "name")
  parts ← parse_operation_children kids no_parts
  ok (operation_of name parts)

unfoldable pub parse_operations : Nodes → Result WsdlError (List Operation)
parse_operations Nodes.nil = ok []
parse_operations (Nodes.element node kids more) =
    let rest = parse_operations more in
    if node.tag == bytes "operation" then collect (parse_operation node kids) rest else rest
parse_operations (Nodes.text s more) = parse_operations more
parse_operations (Nodes.other more) = parse_operations more

unfoldable pub parse_port_type : Element → Nodes → Result WsdlError PortType
parse_port_type node kids = do
  name ← required (bytes "portType/@name") node (bytes "name")
  operations ← parse_operations kids
  ok (record { name = name; operations = operations })

abbrev location_before : Option Bytes → Option Bytes → Option Bytes
location_before none rest = rest
location_before (some l) rest = some l

-- The first `location` of an `address`.
unfoldable pub find_address : Nodes → Option Bytes
find_address Nodes.nil = none
find_address (Nodes.element node kids more) =
    let rest = find_address more in
    if node.tag == bytes "address"
    then location_before (node.attribute (bytes "location")) rest
    else rest
find_address (Nodes.text s more) = find_address more
find_address (Nodes.other more) = find_address more

unfoldable pub parse_port : Element → Nodes → Result WsdlError Port
parse_port node kids = do
  name ← required (bytes "port/@name") node (bytes "name")
  binding_str ← required (bytes "port/@binding") node (bytes "binding")
  binding ← resolve_qname_str binding_str node
  ok (record { name = name; binding = binding; address = or_default [] (find_address kids) })

unfoldable pub parse_ports : Nodes → Result WsdlError (List Port)
parse_ports Nodes.nil = ok []
parse_ports (Nodes.element node kids more) =
    let rest = parse_ports more in
    if node.tag == bytes "port" then collect (parse_port node kids) rest else rest
parse_ports (Nodes.text s more) = parse_ports more
parse_ports (Nodes.other more) = parse_ports more

unfoldable pub parse_service : Element → Nodes → Result WsdlError Service
parse_service node kids = do
  name ← required (bytes "service/@name") node (bytes "name")
  ports ← parse_ports kids
  ok (record { name = name; ports = ports })
