-- ===== src/Tests/Envelope.antt =====
-- Envelopes and faults, on concrete inputs.
use soap_server.Prelude.{◌≡◌, refl, Bytes, bytes, none, some, [], ◌∷◌, ok, arith}
use soap_server.Fault.{sender_fault, to_xml_bytes_versioned}
use soap_server.Fault.Markup.{tags, prescribed, OpensNoTag, fault_markup}
use soap_server.Wsdl.Definitions.{soap11}
use soap_server.Envelope.Parse.{parse_envelope}
use soap_server.Envelope.Document.{Document, bare, Part, document_events, parsed}
use soap_server.Envelope.RoundTrip.{parse-document}
use soap_server.Tests.Wsdl.{request, tag_name}

parse-document_example : parse_envelope (document_events request) ≡ some (ok (parsed request))
parse-document_example = parse-document request

abbrev declaring : Bytes → Bytes → Part
declaring tag uri = record {
  qualified = tag;
  attributes = record { key = bytes "xmlns:p"; value = uri } ∷ [];
}

-- The envelope and the body declare `p`.
abbrev twice : Document
twice = record request {
  envelope = declaring (bytes "e:Envelope") (bytes "urn:a");
  body = declaring (bytes "e:Body") (bytes "urn:b");
  child = bare (tag_name (bytes "urn:t") (bytes "Ping"));
}

-- An escaping that leaves out every text.
abbrev erase : Bytes → Bytes
erase s = bytes "x"

erase-OpensNoTag : (s : Bytes) → OpensNoTag (erase s)
unfolding bytes
erase-OpensNoTag s = (λ h. ground arith, tt)

fault_markup_example :
    tags (to_xml_bytes_versioned erase (sender_fault (bytes "<b>")) soap11) ≡ prescribed soap11 none
fault_markup_example = fault_markup erase erase-OpensNoTag (sender_fault (bytes "<b>")) soap11 refl
