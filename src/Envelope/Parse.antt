-- ===== src/Envelope/Parse.antt =====
-- `detect_soap_version` and `parse_envelope` of src/envelope.rs.
use soap_server.Prelude.{
  ℕ, zero, suc, Bytes, bytes, Bool, true, false, ◌&&◌, ◌||◌, Option, none, some, List, [], ◌∷◌,
  ◌++◌, length, str_eq, ◌==◌, contains_str, if◌then◌else◌, ok, err, ◌>>=◌,
}
use soap_server.Xml.{Tag, start, empty, end_tag, text, general_ref, Stream}
use soap_server.Fault.{Fallible, fail, version_mismatch_fault}
use soap_server.Wsdl.Definitions.{SoapVersion, soap11, soap12}
use soap_server.Envelope.Emit.{Bindings, all_attributes, declarations, collect_ns_from_attrs}
use soap_server.Envelope.Header.{collect_header_children}
use soap_server.Envelope.Body.{extract_body_first_child, skip_to_end}

pub record ParsedEnvelope : Type 0 where
  pub soap_version : SoapVersion
  pub header_children : List Bytes
  pub body_element : Bytes

unfoldable pub detect_soap_version : Bytes → Fallible SoapVersion
detect_soap_version content_type =
    if contains_str (bytes "application/soap+xml") content_type
    then ok soap12
    else if contains_str (bytes "text/xml") content_type
    then ok soap11
    else err version_mismatch_fault

abbrev pub soap12_ns : Bytes
soap12_ns = bytes "http://www.w3.org/2003/05/soap-envelope"

abbrev pub soap11_ns : Bytes
soap11_ns = bytes "http://schemas.xmlsoap.org/soap/envelope/"

-- The bytes of the namespace, empty if the name is bound to none.
abbrev pub ns_bytes : Option Bytes → Bytes
ns_bytes none = []
ns_bytes (some ns) = ns

unfoldable pub version_of_ns : Bytes → Fallible SoapVersion
version_of_ns ns =
    if ns == soap12_ns
    then ok soap12
    else if ns == soap11_ns
    then ok soap11
    else fail (bytes "Unknown SOAP Envelope namespace")

abbrev enter_envelope : Option Bytes → Tag → Stream → Fallible (SoapVersion × Bindings × Stream)
enter_envelope ns tag rest = do
  version ← version_of_ns (ns_bytes ns)
  attrs ← all_attributes tag.attributes
  ok (version, declarations attrs, rest)

-- Step 1: the start tag of the envelope, with its version and bindings.
unfoldable pub find_envelope : Stream → Fallible (SoapVersion × Bindings × Stream)
find_envelope [] = fail (bytes "Missing SOAP Envelope element")
find_envelope (err e ∷ rest) = fail (bytes "XML parse error: " ++ e)
find_envelope (ok item ∷ rest) = elim item.event [
  | start tag ↦ elim (tag.local_name == bytes "Envelope") [
    | true ↦ enter_envelope item.namespace tag rest
    | false ↦ find_envelope rest
  ]
  | empty tag ↦ find_envelope rest
  | end_tag name ↦ find_envelope rest
  | text t ↦ find_envelope rest
  | general_ref name ↦ find_envelope rest
  | _ ↦ find_envelope rest
]

-- The variables of step 2.
pub record Found : Type 0 where
  pub header_children : List Bytes
  pub body_element : Option Bytes
  pub found_body : Bool

abbrev pub nothing_found : Found
nothing_found = record { header_children = []; body_element = none; found_body = false }

abbrev pub is_soap_ns : Option Bytes → Bool
is_soap_ns ns = ns_bytes ns == soap12_ns || ns_bytes ns == soap11_ns

unfoldable pub enter_header : Bindings → Tag → Stream → Found → Fallible (Found × Stream)
enter_header ns tag rest found = do
  (children, rest') ← collect_header_children (collect_ns_from_attrs tag ns) rest
  ok (record found { header_children = children }, rest')

unfoldable pub enter_body : Bindings → Tag → Stream → Found → Fallible (Found × Stream)
enter_body ns tag rest found = do
  (child, rest') ← extract_body_first_child (collect_ns_from_attrs tag ns) rest
  rest'' ← skip_to_end rest'
  ok (record found { found_body = true; body_element = some child }, rest'')

-- `skip_element`
unfoldable pub skip_element : Stream → Found → Fallible (Found × Stream)
skip_element rest found = do rest' ← skip_to_end rest; ok (found, rest')

-- A start tag among the children of the envelope.
unfoldable pub enter_child :
    Bindings → Option Bytes → Tag → Stream → Found → Fallible (Found × Stream)
enter_child ns namespace tag rest found =
    if is_soap_ns namespace && tag.local_name == bytes "Header"
    then enter_header ns tag rest found
    else if is_soap_ns namespace && tag.local_name == bytes "Body"
    then enter_body ns tag rest found
    else skip_element rest found

-- Step 2, with fuel for the events: a child takes a part of the stream off. `none` is out of fuel.
unfoldable pub scan_children : ℕ → Bindings → Stream → Found → Option (Fallible Found)
scan_children zero ns events found = none
scan_children (suc fuel) ns [] found = some (ok found)
scan_children (suc fuel) ns (err e ∷ rest) found = some (fail (bytes "XML parse error: " ++ e))
scan_children (suc fuel) ns (ok item ∷ rest) found = elim item.event [
  | start tag ↦ elim (enter_child ns item.namespace tag rest found) [
    | ok (found', rest') ↦ scan_children fuel ns rest' found'
    | err fault ↦ some (err fault)
  ]
  | end_tag name ↦ some (ok found)
  | empty tag ↦ scan_children fuel ns rest found
  | text t ↦ scan_children fuel ns rest found
  | general_ref name ↦ scan_children fuel ns rest found
  | _ ↦ scan_children fuel ns rest found
]

abbrev pub or_default : Option Bytes → Bytes
or_default none = []
or_default (some b) = b

abbrev pub assemble : SoapVersion → Found → Fallible ParsedEnvelope
assemble version found =
    if found.found_body
    then ok (record {
      soap_version = version;
      header_children = found.header_children;
      body_element = or_default found.body_element;
    })
    else fail (bytes "Missing Body")

abbrev finish_scan : SoapVersion → Option (Fallible Found) → Option (Fallible ParsedEnvelope)
finish_scan version none = none
finish_scan version (some (err fault)) = some (err fault)
finish_scan version (some (ok found)) = some (assemble version found)

abbrev scan_after :
    ℕ → Fallible (SoapVersion × Bindings × Stream) → Option (Fallible ParsedEnvelope)
scan_after fuel (err fault) = some (err fault)
scan_after fuel (ok (version, ns, rest)) =
    finish_scan version (scan_children fuel ns rest nothing_found)

-- The whole, on fuel.
unfoldable pub parse_envelope_on : ℕ → Stream → Option (Fallible ParsedEnvelope)
parse_envelope_on fuel events = scan_after fuel (find_envelope events)

-- `parse_envelope`: the events are fuel enough.
unfoldable pub parse_envelope : Stream → Option (Fallible ParsedEnvelope)
unfolding parse_envelope_on
parse_envelope events = parse_envelope_on (suc (length events)) events
