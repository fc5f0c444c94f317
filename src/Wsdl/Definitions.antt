-- ===== src/Wsdl/Definitions.antt =====
-- The parts of a WSDL 1.1 document (src/wsdl/definitions.rs).
use soap_server.Prelude.{Bytes, Bool, true, false, Option, List, Map}
use soap_server.Qname.{QName}

pub data SoapVersion : Type 0 where
  soap11 soap12 : SoapVersion

pub data BindingStyle : Type 0 where
  document rpc : BindingStyle

pub data UseStyle : Type 0 where
  literal encoded : UseStyle

pub data OperationStyle : Type 0 where
  one_way request_response solicit_response notification : OperationStyle

pub record WsdlImport : Type 0 where
  pub namespace : Bytes
  pub location : Option Bytes

pub record TypesSection : Type 0 where
  pub schemas : List Bytes

pub record MessagePart : Type 0 where
  pub name : Bytes
  pub element : Option QName
  pub type_ref : Option QName

pub record Message : Type 0 where
  pub name : Bytes
  pub parts : List MessagePart

pub record OperationMessage : Type 0 where
  pub name : Option Bytes
  pub message : QName

pub record OperationFault : Type 0 where
  pub name : Bytes
  pub message : QName

pub record Operation : Type 0 where
  pub name : Bytes
  pub input : Option OperationMessage
  pub output : Option OperationMessage
  pub faults : List OperationFault
  pub style : OperationStyle

pub record PortType : Type 0 where
  pub name : Bytes
  pub operations : List Operation

pub record SoapBinding : Type 0 where
  pub style : BindingStyle
  pub transport : Bytes
  pub soap_version : SoapVersion

pub record SoapHeader : Type 0 where
  pub message : QName
  pub part : Bytes

pub record SoapBody : Type 0 where
  pub use_attr : UseStyle
  pub namespace : Option Bytes
  pub encoding_style : Option Bytes

pub record BindingMessage : Type 0 where
  pub body : SoapBody
  pub headers : List SoapHeader

pub record BindingOperation : Type 0 where
  pub name : Bytes
  pub soap_action : Bytes
  pub input : BindingMessage
  pub output : BindingMessage

pub record Binding : Type 0 where
  pub name : Bytes
  pub port_type : QName
  pub soap_binding : SoapBinding
  pub operations : List BindingOperation

pub record Port : Type 0 where
  pub name : Bytes
  pub binding : QName
  pub address : Bytes

pub record Service : Type 0 where
  pub name : Bytes
  pub ports : List Port

pub record WsdlDefinition : Type 0 where
  pub target_namespace : Bytes
  pub imports : List WsdlImport
  pub types : TypesSection
  pub messages : Map Bytes Message
  pub port_types : Map Bytes PortType
  pub bindings : Map Bytes Binding
  pub services : Map Bytes Service

-- The derived `PartialEq` of `BindingStyle`, at `Rpc`.
abbrev pub is_rpc : BindingStyle → Bool
is_rpc document = false
is_rpc rpc = true
