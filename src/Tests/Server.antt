-- ===== src/Tests/Server.antt =====
-- Requests to a server with one protected operation.
use soap_server.Prelude.{
  ℕ, ◌+◌, ◌≡◌, refl, ◌⊎◌, Bytes, bytes, Bool, true, none, some, [], ◌∷◌, ok, arith, lookup, insert,
  contains, insert_set, str_beq, strip_prefix, contains_str, if◌then◌else◌, split_at_byte,
  utf8_or_empty, from_utf8, from_utf8_lossy,
}
use soap_server.Prelude.Int.{pos}
use soap_server.Qname.{qname_beq}
use soap_server.Xml.{Readers}
use soap_server.Fault.{SoapFault, Fallible, fail, sender_fault}
use soap_server.Wsdl.Definitions.{soap12}
use soap_server.Envelope.Parse.{ParsedEnvelope, parse_envelope, detect_soap_version}
use soap_server.Envelope.Emit.{declarations, write_attributes, write_end}
use soap_server.Envelope.Header
use soap_server.Envelope.Header.{own_attr_keys, write_header_root}
use soap_server.Envelope.Body
use soap_server.Envelope.Body.{own_prefixes}
use soap_server.Envelope.Tree.{element, void, events, print, print_tag}
use soap_server.Envelope.Document.{document_events, parsed}
use soap_server.Envelope.RoundTrip.{parse-document}
use soap_server.Dispatch.Table.{DispatchEntry, DispatchTable}
use soap_server.Dispatch.Route.{route}
use soap_server.Dispatch.Validate.{
  validate_request, parse_child_element_names, children_from, check_required,
  collect_required_element_names,
}
use soap_server.Xsd.Types.{lookup_type}
use soap_server.Wssec.NonceCache.{
  check_and_insert, check_rotated, is_known, make_room, remember, rotate_if_needed,
}
use soap_server.Wssec.NonceCache.Replay.{after_calls}
use soap_server.Wssec.Timestamp.{check_freshness, parse_created}
use soap_server.Wssec.UsernameToken.Names.{digest}
use soap_server.Wssec.UsernameToken.Parse.{parse_username_token}
use soap_server.Wssec.UsernameToken.Validate.{
  authenticate, verify_password, compute_digest, add_base64_padding, check_nonce,
  validate_username_token,
}
use soap_server.Wssec.UsernameToken.Reading.{parse-token_events}
use soap_server.Server.Handler.{SoapHandler, fn_handler}
use soap_server.Server.Request.{
  HeaderMap, content_type, first_name, extract_body_qname, root_is_security, find_security_header,
}
use soap_server.Server.Service.{Library, Response, SoapService, Outcome}
use soap_server.Server.Post.{fault_response, respond, select, authorize, invoke, serve, post}
use soap_server.Server.Total.{IsEnough, post_total}
use soap_server.Server.Auth.{HasNoGenuineToken, impostor_refused, response_follows_envelope}
use soap_server.Server.Served.{IsRefused, IsServed, post_cases}
use soap_server.Server.Replay.{IsProtected, replayed_request_refused}
use soap_server.Tests.Fixture.{
  none_known, crypto, nonce, token, security, all_known, cache, used, early, later,
}
use soap_server.Tests.Wsdl.{name, ping, registry, request, ping_kids, tag_name}
use soap_server.Wssec.UsernameToken.Names.{wsse_ns}

abbrev envelope : ParsedEnvelope
envelope = parsed request

abbrev is_security : Bytes → Bool
is_security s = contains_str (bytes "Security") s

-- Readers that know the request, its header and its body.
abbrev readers : Readers
readers = record {
  resolved = λ s. document_events request;
  trimmed = λ s.
      if contains_str (bytes "Security") s
      then events (void (tag_name wsse_ns (bytes "Security"))) []
      else events (element (tag_name (bytes "urn:t") ping) ping_kids) [];
  raw = λ s. [];
  plain = λ s.
      if contains_str (bytes "Security") s
      then security
      else events (element (tag_name (bytes "urn:t") ping) ping_kids) [];
}

abbrev lib : Library
lib = record {
  readers = readers;
  crypto = crypto;
  escape = λ s. s;
  write = λ es. [];
  utf8_message = λ s. s;
}

-- A handler that counts its calls.
abbrev count : SoapHandler ℕ
count = fn_handler (λ calls body. (ok (bytes "<Pong/>"), calls + 1))

abbrev entry : DispatchEntry (SoapHandler ℕ)
entry = record {
  handler = count;
  auth_required = true;
  input_type = some (name ping);
  validation_type = some (name ping);
}

abbrev table : DispatchTable (SoapHandler ℕ)
table = record { by_element = (name ping, entry) ∷ []; by_action = []; default_handler = none }

abbrev svc : SoapService ℕ
svc = record {
  dispatch_table = table;
  service_tables = [];
  service_path_names = [];
  type_registry = registry;
  wsdl_raw = [];
  auth_fn = some all_known;
  timestamp_tolerance_secs = pos 300;
  mount_path = bytes "/soap";
  max_body_bytes = 2_097_152;
}

abbrev headers : HeaderMap
headers = record {
  get = λ key.
      if str_beq key (bytes "content-type") then some (bytes "application/soap+xml") else none;
  to_str = λ s. some s;
}

-- The same server, where nobody is known.
abbrev strict : SoapService ℕ
strict = record svc { auth_fn = some none_known }

nobody : HasNoGenuineToken lib strict early 0 none_known envelope.header_children
nobody security token found read genuine = absurd (cc (genuine.user_known))

early-IsEnough : IsEnough early cache
early-IsEnough = record {
  first = 5;
  rest = [];
  readings = refl;
  last = 5;
  bounded = (omega arith, tt);
  enough = omega arith;
}

post_total_example :
    (outcome : Outcome ℕ) × (post lib svc table headers [] early 0 cache 0 ≡ some outcome)
post_total_example =
    post_total early cache (omega arith) early-IsEnough lib svc 0 table headers [] 0

abbrev pong : Response
pong = respond lib soap12 (ok (bytes "<Pong/>"))

abbrev security_bytes : Bytes
security_bytes = bytes "<Security/>"

detected : detect_soap_version (content_type headers) ≡ ok soap12
unfolding detect_soap_version content_type bytes str_beq strip_prefix contains_str
detected = refl

selected : select lib table headers envelope ≡ ok entry
unfolding select extract_body_qname first_name route lookup events from_utf8 bytes str_beq
    strip_prefix contains_str qname_beq print print_tag write_attributes write_end Body.inherited
    own_prefixes declarations
selected = refl

found : find_security_header readers envelope.header_children ≡ some security_bytes
unfolding find_security_header root_is_security events utf8_or_empty bytes str_beq strip_prefix
    contains_str print declarations contains Header.inherited own_attr_keys write_header_root
    write_attributes
found = refl

read : parse_username_token (readers.plain security_bytes) ≡ ok token
unfolding bytes contains_str strip_prefix from_utf8_lossy
read = parse-token_events (bytes "ann") (bytes "n0n0tpw") digest (some nonce) (some (bytes "t"))

validated :
    validate_username_token crypto (readers.plain security_bytes) all_known early (pos 300) 0 cache
    ≡ some (ok (bytes "ann"), used)
unfolding validate_username_token authenticate parse_username_token verify_password compute_digest
    add_base64_padding parse_created check_freshness check_nonce check_and_insert check_rotated
    is_known make_room remember rotate_if_needed contains insert_set lookup insert strip_prefix
    split_at_byte utf8_or_empty from_utf8_lossy bytes str_beq contains_str
validated = refl

valid :
    validate_request (λ s. s) (readers.plain envelope.body_element) registry (some (name ping))
    ≡ ok tt
unfolding validate_request parse_child_element_names children_from check_required lookup_type
    collect_required_element_names lookup insert_set contains events from_utf8 bytes str_beq
    qname_beq contains_str strip_prefix print print_tag write_attributes write_end Body.inherited
    own_prefixes declarations
valid = refl

-- The request is answered, and the handler has been called once.
post-request : post lib svc table headers [] early 0 cache 0 ≡ some (pong, used, 1)
unfolding post serve authorize invoke
post-request = rw (detected, parse-document request, selected, found, validated, valid)

abbrev refused : Response
refused = fault_response lib (sender_fault (bytes "WS-Security nonce replay detected")) soap12

validated-again :
    validate_username_token crypto (readers.plain security_bytes) all_known later (pos 300) 0 used
    ≡ some (fail (bytes "WS-Security nonce replay detected"), used)
unfolding validate_username_token authenticate parse_username_token verify_password compute_digest
    add_base64_padding parse_created check_freshness check_nonce check_and_insert check_rotated
    is_known make_room remember rotate_if_needed contains insert_set lookup insert strip_prefix
    split_at_byte utf8_or_empty from_utf8_lossy bytes str_beq contains_str
validated-again = refl

-- The same request again.
post-again : post lib svc table headers [] later 0 used 1 ≡ some (refused, used, 1)
unfolding post serve authorize respond
post-again = rw (detected, parse-document request, selected, found, validated-again)

request-IsProtected : IsProtected lib svc table headers [] nonce
request-IsProtected = record {
  envelope = envelope;
  parsed = parse-document request;
  entry = entry;
  selected = selected;
  required = refl;
  get_password = all_known;
  given = refl;
  security = security_bytes;
  found = found;
  token = token;
  read = read;
  nonced = refl;
}

replayed_request_refused_example : (◌≡◌ {A = ℕ} 1 1) × (refused.status ≡ 500)
unfolding after_calls respond fault_response
replayed_request_refused_example =
    replayed_request_refused lib svc table headers [] nonce request-IsProtected 0 early later 0 0 []
      cache used used used 0 1 1 1 pong refused (omega arith) (omega arith, tt) (omega arith)
      post-request refl (omega arith) tt (omega arith, tt) refl post-again

impostor_refused_example :
    (fault : SoapFault) × (post lib strict table headers [] early 0 cache 0
      ≡ some (fault_response lib fault soap12, cache, 0))
impostor_refused_example =
    impostor_refused lib strict early 0 table headers [] cache 0 soap12 envelope entry none_known
      detected (parse-document request) selected refl refl nobody

response_follows_envelope_example : (out : Fallible Bytes) × (pong ≡ respond lib soap12 out)
response_follows_envelope_example =
    response_follows_envelope lib svc early 0 table headers [] cache used 0 1 soap12 envelope pong
      detected (parse-document request) post-request

post_cases_example :
    IsRefused lib svc early 0 table headers cache used 0 1 pong
    ⊎ ((e : ParsedEnvelope) × (parse_envelope (readers.resolved []) ≡ some (ok e))
        × IsServed lib svc early 0 table headers cache used 0 1 pong e)
post_cases_example = post_cases lib svc early 0 table headers cache used 0 1 pong [] post-request
