-- ===== src/Envelope/Serialize.antt =====
-- `serialize_envelope` and `response_content_type` of src/envelope.rs.
use soap_server.Prelude.{Bytes, bytes, ◌++◌}
use soap_server.Wsdl.Definitions.{SoapVersion, soap11, soap12}
use soap_server.Envelope.Parse.{soap11_ns, soap12_ns}

abbrev pub envelope_ns : SoapVersion → Bytes
envelope_ns soap12 = soap12_ns
envelope_ns soap11 = soap11_ns

unfoldable pub serialize_envelope : Bytes → SoapVersion → Bytes
serialize_envelope body version =
    bytes "<env:Envelope xmlns:env=\""
    ++ envelope_ns version
    ++ bytes "\"><env:Body>"
    ++ body
    ++ bytes "</env:Body></env:Envelope>"

unfoldable pub response_content_type : SoapVersion → Bytes
response_content_type soap12 = bytes "application/soap+xml; charset=utf-8"
response_content_type soap11 = bytes "text/xml; charset=utf-8"
