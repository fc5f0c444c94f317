-- ===== src/Fault.antt =====
-- SOAP faults and their serialisation (src/fault.rs). `escape` stands for
-- `quick_xml::escape::escape`, to which `escape_text` of src/xml_escape.rs delegates.
pub mod Markup
use soap_server.Prelude.{Bytes, bytes, Option, none, some, List, [], ◌∷◌, ◌++◌, Result, err}
use soap_server.Wsdl.Definitions.{SoapVersion, soap11, soap12}

pub data FaultCode : Type 0 where
  version_mismatch must_understand data_encoding_unknown sender receiver : FaultCode

-- `FaultCode::as_soap12_str`
unfoldable pub as_soap12_str : FaultCode → Bytes
as_soap12_str version_mismatch = bytes "env:VersionMismatch"
as_soap12_str must_understand = bytes "env:MustUnderstand"
as_soap12_str data_encoding_unknown = bytes "env:DataEncodingUnknown"
as_soap12_str sender = bytes "env:Sender"
as_soap12_str receiver = bytes "env:Receiver"

-- `FaultCode::as_soap11_str`
unfoldable pub as_soap11_str : FaultCode → Bytes
as_soap11_str version_mismatch = bytes "env:VersionMismatch"
as_soap11_str must_understand = bytes "env:MustUnderstand"
as_soap11_str data_encoding_unknown = bytes "env:Server"
as_soap11_str sender = bytes "env:Client"
as_soap11_str receiver = bytes "env:Server"

pub record SoapFault : Type 0 where
  pub code : FaultCode
  pub reason : Bytes
  pub detail : Option Bytes
  pub detail_xml : Option Bytes

abbrev pub new : FaultCode → Bytes → Option Bytes → SoapFault
new code reason detail = record { code = code; reason = reason; detail = detail; detail_xml = none }

abbrev pub with_detail_xml : SoapFault → Bytes → SoapFault
with_detail_xml f xml = record f { detail_xml = some xml }

-- `SoapFault::sender` and the other constructors of common faults.
abbrev pub sender_fault : Bytes → SoapFault
sender_fault reason = new sender reason none

abbrev pub receiver_fault : Bytes → SoapFault
receiver_fault reason = new receiver reason none

abbrev pub version_mismatch_fault : SoapFault
version_mismatch_fault = new version_mismatch (bytes "SOAP version mismatch") none

abbrev pub must_understand_fault : Bytes → SoapFault
must_understand_fault header = new must_understand (bytes "Header not understood: " ++ header) none

abbrev pub action_not_supported : Bytes → SoapFault
action_not_supported action = new sender (bytes "Action not supported: " ++ action) none

-- What fallible functions of the server return.
abbrev pub Fallible {ℓ} : Type ℓ → Type ℓ
Fallible A = Result SoapFault A

abbrev pub fail {ℓ} : {A : Type ℓ} → Bytes → Fallible A
fail reason = err (sender_fault reason)

-- The `faultcode` of `to_xml_bytes_v11`.
unfoldable pub faultcode_v11 : FaultCode → Bytes
faultcode_v11 sender = bytes "SOAP-ENV:Client"
faultcode_v11 receiver = bytes "SOAP-ENV:Server"
faultcode_v11 version_mismatch = bytes "SOAP-ENV:VersionMismatch"
faultcode_v11 must_understand = bytes "SOAP-ENV:MustUnderstand"
faultcode_v11 data_encoding_unknown = bytes "SOAP-ENV:Server"

module _ (escape : Bytes → Bytes) where
  unfoldable pub detail_v11 : Option Bytes → Option Bytes → Bytes
  detail_v11 (some raw) detail = bytes "<detail>" ++ raw ++ bytes "</detail>"
  detail_v11 none (some detail) = bytes "<detail>" ++ escape detail ++ bytes "</detail>"
  detail_v11 none none = []

  unfoldable pub to_xml_bytes_v11 : SoapFault → Bytes
  to_xml_bytes_v11 f =
      bytes
        "<SOAP-ENV:Envelope xmlns:SOAP-ENV=\"http://schemas.xmlsoap.org/soap/envelope/\"><SOAP-ENV:Body><SOAP-ENV:Fault><faultcode>"
      ++ faultcode_v11 f.code
      ++ bytes "</faultcode><faultstring>"
      ++ escape f.reason
      ++ bytes "</faultstring>"
      ++ detail_v11 f.detail_xml f.detail
      ++ bytes "</SOAP-ENV:Fault></SOAP-ENV:Body></SOAP-ENV:Envelope>"

  unfoldable pub detail_v12 : Option Bytes → Bytes
  detail_v12 (some raw) = bytes "<env:Detail>" ++ raw ++ bytes "</env:Detail>"
  detail_v12 none = []

  unfoldable pub to_xml_bytes : SoapFault → Bytes
  to_xml_bytes f =
      bytes
        "<env:Envelope xmlns:env=\"http://www.w3.org/2003/05/soap-envelope\"><env:Body><env:Fault><env:Code><env:Value>"
      ++ as_soap12_str f.code
      ++ bytes "</env:Value></env:Code><env:Reason><env:Text xml:lang=\"en\">"
      ++ escape f.reason
      ++ bytes "</env:Text></env:Reason>"
      ++ detail_v12 f.detail_xml
      ++ bytes "</env:Fault></env:Body></env:Envelope>"

  unfoldable pub to_xml_bytes_versioned : SoapFault → SoapVersion → Bytes
  to_xml_bytes_versioned f soap12 = to_xml_bytes f
  to_xml_bytes_versioned f soap11 = to_xml_bytes_v11 f
