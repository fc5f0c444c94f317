-- ===== src/Crossref/Addresses.antt =====
-- The addresses of a served WSDL document, as the harness checks them
-- (crossref/src/layer2/mod.rs).
use soap_server.Prelude.{
  ℕ, zero, suc, Bytes, bytes, Bool, true, false, ◌&&◌, Option, none, some, List, [], ◌∷◌, ◌++◌,
  length, str_eq, ◌==◌, strip_prefix, from_utf8_lossy, if◌then◌else◌, Result, ok, err, ◌>>=◌,
}
use soap_server.Xml.{Attribute, accepted, Tag, Event, start, empty, end_tag, Stream}
use soap_server.Crossref.Masks.{after_last, split_slash}

abbrev pub Addresses : Type 0
Addresses = List (Bytes × Bytes)

-- The variables of `extract_soap_addresses`.
pub record Extracting : Type 0 where
  pub current_service : Option Bytes
  pub in_service : Bool

-- The bytes of a name after its last colon.
unfoldable pub raw_local : Bytes → Bytes
unfolding after_last
raw_local name = elim (after_last 58 name) [ some local ↦ local | none ↦ name ]

-- The last `name` attribute, if there is one.
unfoldable pub named_service : List Attribute → Option Bytes → Option Bytes
unfolding from_utf8_lossy
named_service [] current = current
named_service (a ∷ attrs) current =
    named_service attrs (if a.key == bytes "name" then some (from_utf8_lossy a.value) else current)

abbrev pub add_address : Option Bytes → Bytes → Addresses → Addresses
add_address none location rest = rest
add_address (some service) location rest = (service, location) ∷ rest

-- The `location` attributes of an address.
unfoldable pub locations : Option Bytes → List Attribute → Addresses
unfolding from_utf8_lossy
locations current [] = []
locations current (a ∷ attrs) =
    let rest = locations current attrs in
    if a.key == bytes "location" then add_address current (from_utf8_lossy a.value) rest else rest

-- A start or an empty tag: the addresses found, and the new state.
unfoldable pub extract_tag : Tag → Extracting → Addresses × Extracting
unfolding raw_local named_service locations
extract_tag tag s =
    if raw_local tag.name == bytes "service"
    then (
      [],
      record {
        current_service = named_service (accepted tag.attributes) s.current_service;
        in_service = true;
      },
    )
    else if raw_local tag.name == bytes "address" && s.in_service
    then (locations s.current_service (accepted tag.attributes), s)
    else ([], s)

unfoldable pub extract_end : Bytes → Extracting → Extracting
unfolding raw_local
extract_end name s =
    if raw_local name == bytes "service"
    then record { current_service = none; in_service = false }
    else s

unfoldable pub extract_event : Event → Extracting → Addresses × Extracting
unfolding extract_tag extract_end
extract_event (start tag) s = extract_tag tag s
extract_event (empty tag) s = extract_tag tag s
extract_event (end_tag name) s = ([], extract_end name s)
extract_event e s = ([], s)

unfoldable pub extract_from : Stream → Extracting → Result Bytes Addresses
unfolding extract_event
extract_from [] s = ok []
extract_from (err e ∷ rest) s = err e
extract_from (ok item ∷ rest) s = do
  others ← extract_from rest (extract_event item.event s).1
  ok ((extract_event item.event s).0 ++ others)

unfoldable pub extract_soap_addresses : Stream → Result Bytes Addresses
unfolding extract_from
extract_soap_addresses wsdl =
    extract_from wsdl (record { current_service = none; in_service = false })

-- `str::trim_start_matches`: each round takes a byte or more off, so the length is fuel enough.
trim_rounds : ℕ → Bytes → Bytes → Bytes
trim_rounds zero p s = s
trim_rounds (suc f) p s = elim (strip_prefix p s) [ none ↦ s | some r ↦ trim_rounds f p r ]

abbrev first_piece : List Bytes → Bytes
first_piece [] = []
first_piece (piece ∷ rest) = piece

-- Host and port of an address.
unfoldable pub host_part : Bytes → Bytes
unfolding trim_rounds split_slash
host_part url =
    let without_http = trim_rounds (length url) (bytes "http://") url in
    first_piece (split_slash (trim_rounds (length without_http) (bytes "https://") without_http))

abbrev wrong_host : Bytes → Bytes → Bytes → Bytes → Bytes
wrong_host service location host expected =
    bytes "service '"
    ++ service
    ++ bytes "' address '"
    ++ location
    ++ bytes "' host is '"
    ++ host
    ++ bytes "', expected '"
    ++ expected
    ++ bytes "' (rewrite invariant failed)"

unfoldable pub check_hosts : Bytes → Addresses → Result Bytes (Unit {0})
unfolding host_part
check_hosts expected [] = ok tt
check_hosts expected ((service, location) ∷ rest) =
    let others = check_hosts expected rest in
    if host_part location == expected
    then others
    else err (wrong_host service location (host_part location) expected)

abbrev pub check_found : Bytes → Addresses → Result Bytes (Unit {0})
check_found our_base [] = err (bytes "no <soap:address> elements found in WSDL")
check_found our_base (a ∷ addresses) = check_hosts (host_part our_base) (a ∷ addresses)

unfoldable pub check_single_rewrite_invariant : Stream → Bytes → Result Bytes (Unit {0})
unfolding extract_soap_addresses check_hosts host_part
check_single_rewrite_invariant wsdl our_base = do
  addresses ← extract_soap_addresses wsdl
  check_found our_base addresses
