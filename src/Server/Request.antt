-- ===== src/Server/Request.antt =====
-- What the POST handlers read from a request (src/server.rs).
use soap_server.Prelude.{
  Bytes, bytes, Bool, false, ◌&&◌, Option, none, some, List, [], ◌∷◌, ◌++◌, nat_beq, str_eq, ◌==◌,
  from_utf8, utf8_or_empty, if◌then◌else◌, ok, err, ◌>>=◌,
}
use soap_server.Qname
use soap_server.Qname.{QName}
use soap_server.Xml.{Tag, start, empty, Stream, Readers}
use soap_server.Fault.{Fallible, fail}
use soap_server.Wssec.UsernameToken.Names.{wsse_ns}

-- `HeaderMap`: the first value of a header, whatever the case of its name, and `HeaderValue::to_str`.
pub record HeaderMap : Type 0 where
  pub get : Bytes → Option Bytes
  pub to_str : Bytes → Option Bytes

abbrev pub and_then : Option Bytes → (Bytes → Option Bytes) → Option Bytes
and_then none f = none
and_then (some a) f = f a

abbrev pub or_else : Option Bytes → Option Bytes → Option Bytes
or_else none b = b
or_else (some a) b = some a

abbrev pub unwrap_or : Option Bytes → Bytes → Bytes
unwrap_or none d = d
unwrap_or (some a) d = a

-- `content_type`
unfoldable pub content_type : HeaderMap → Bytes
content_type headers = unwrap_or (and_then (headers.get (bytes "content-type")) headers.to_str) []

abbrev drop_quotes : Bytes → Bytes
drop_quotes [] = []
drop_quotes (c ∷ s) = if nat_beq c b'"' then drop_quotes s else c ∷ s

abbrev drop_last_quotes : Bytes → Bytes
drop_last_quotes [] = []
drop_last_quotes (c ∷ s) = elim (drop_last_quotes s) [
  | [] ↦ if nat_beq c b'"' then [] else c ∷ []
  | d ∷ t ↦ c ∷ d ∷ t
]

-- `trim_matches('"')`
unfoldable pub trim_quotes : Bytes → Bytes
trim_quotes s = drop_last_quotes (drop_quotes s)

abbrev trimmed_option : Option Bytes → Option Bytes
trimmed_option none = none
trimmed_option (some s) = some (trim_quotes s)

-- `soap_action`
unfoldable pub soap_action : HeaderMap → Option Bytes
soap_action headers = trimmed_option (
    and_then (or_else (headers.get (bytes "soapaction")) (headers.get (bytes "SOAPAction")))
      headers.to_str)

module _ (utf8_message : Bytes → Bytes) where
  abbrev read_utf8 : Bytes → Bytes → Fallible Bytes
  read_utf8 what s = elim (from_utf8 s) [
    | none ↦ fail (bytes "Invalid UTF-8 in " ++ what ++ bytes ": " ++ utf8_message s)
    | some t ↦ ok t
  ]

  abbrev read_namespace : Option Bytes → Fallible Bytes
  read_namespace none = ok []
  read_namespace (some ns) = read_utf8 (bytes "namespace") ns

  abbrev named : Bytes → Bytes → QName
  named [] local = Qname.local local
  named (c ∷ ns) local = Qname.new (c ∷ ns) local

  abbrev pub element_name : Option Bytes → Tag → Fallible QName
  element_name ns tag = do
    local ← read_utf8 (bytes "element name") tag.local_name
    namespace ← read_namespace ns
    ok (named namespace local)

  -- The loop of `extract_body_qname`.
  unfoldable pub first_name : Stream → Fallible QName
  first_name [] = fail (bytes "Empty SOAP Body element")
  first_name (err e ∷ rest) = fail (bytes "XML parse error in body: " ++ e)
  first_name (ok item ∷ rest) = elim item.event [
    | start tag ↦ element_name item.namespace tag
    | empty tag ↦ element_name item.namespace tag
    | _ ↦ first_name rest
  ]

  unfoldable pub extract_body_qname : Readers → Bytes → Fallible QName
  extract_body_qname readers body = first_name (readers.trimmed body)

abbrev is_bound_to : Bytes → Option Bytes → Bool
is_bound_to uri none = false
is_bound_to uri (some ns) = utf8_or_empty ns == uri

abbrev pub is_security_tag : Option Bytes → Tag → Bool
is_security_tag ns tag = utf8_or_empty tag.local_name == bytes "Security" && is_bound_to wsse_ns ns

-- The inner loop of `find_security_header`: is the root element `Security` of WS-Security?
unfoldable pub root_is_security : Stream → Bool
root_is_security [] = false
root_is_security (err e ∷ rest) = false
root_is_security (ok item ∷ rest) = elim item.event [
  | start tag ↦ is_security_tag item.namespace tag
  | empty tag ↦ is_security_tag item.namespace tag
  | _ ↦ root_is_security rest
]

unfoldable pub find_security_header : Readers → List Bytes → Option Bytes
find_security_header readers [] = none
find_security_header readers (child ∷ children) =
    if root_is_security (readers.trimmed child)
    then some child
    else find_security_header readers children
