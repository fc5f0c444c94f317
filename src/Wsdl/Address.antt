-- ===== src/Wsdl/Address.antt =====
-- `rewrite_wsdl_address` and `rewrite_wsdl_address_for_service` (src/wsdl/resolver.rs). A document
-- is the stream of its events, and so is the result, which quick-xml's `Writer` prints.
use soap_server.Prelude.{
  ℕ, suc, ◌-◌, Bytes, bytes, Bool, true, false, ◌&&◌, none, some, List, [], ◌∷◌, map, nat_beq,
  contains, insert_set, str_eq, ◌==◌, from_utf8, utf8_or_empty, if◌then◌else◌, ok, err,
}
use soap_server.Xml.{Attribute, accepted, Tag, Event, start, empty, end_tag, Stream}

abbrev pub local_of : Tag → Bytes
local_of tag = utf8_or_empty tag.local_name

abbrev pub is_location : Attribute → Bool
is_location attr = utf8_or_empty attr.key == bytes "location"

-- `escape` is what quick-xml's `push_attribute` does to a value.
-- `String::from_utf8(name).unwrap_or_else(|_| "address")`
unfoldable pub tag_name : Bytes → Bytes
tag_name name = elim (from_utf8 name) [ none ↦ bytes "address" | some valid ↦ name ]

module _ (escape : Bytes → Bytes) where
  -- The loop over the attributes of an address.
  unfoldable pub relocate : Bytes → List Attribute → List Attribute
  relocate url [] = []
  relocate url (attr ∷ attrs) =
      (if is_location attr then record { key = bytes "location"; value = escape url } else attr)
      ∷ relocate url attrs

  -- The new tag of an address.
  abbrev pub rewritten : Bytes → Tag → Tag
  rewritten url tag = record {
    name = tag_name tag.name;
    local_name = tag.local_name;
    attributes = map some (relocate url (accepted tag.attributes));
  }

  abbrev pub rewrite_tag : Bytes → Tag → Tag
  rewrite_tag url tag = if local_of tag == bytes "address" then rewritten url tag else tag

  abbrev pub rewrite_event : Bytes → Event → Event
  rewrite_event url (start tag) = start (rewrite_tag url tag)
  rewrite_event url (empty tag) = empty (rewrite_tag url tag)
  rewrite_event url e = e

  unfoldable pub rewrite_wsdl_address : Stream → Bytes → List Event
  rewrite_wsdl_address [] url = []
  rewrite_wsdl_address (err e ∷ rest) url = []
  rewrite_wsdl_address (ok item ∷ rest) url =
      rewrite_event url item.event ∷ rewrite_wsdl_address rest url

-- `e.attributes().flatten().find(…name…)` with `unwrap_or_default`.
unfoldable pub name_attr : List Attribute → Bytes
name_attr [] = []
name_attr (attr ∷ attrs) =
    if utf8_or_empty attr.key == bytes "name" then utf8_or_empty attr.value else name_attr attrs

abbrev pub name_of : Tag → Bytes
name_of tag = name_attr (accepted tag.attributes)

-- The variables of pass 1.
pub record Ports : Type 0 where
  pub in_target_service : Bool
  pub service_depth : ℕ
  pub port_names : List Bytes

abbrev add_name : Bytes → Ports → Ports
add_name [] s = s
add_name (c ∷ name) s = record s { port_names = insert_set (c ∷ name) s.port_names }

unfoldable pub ports_on_start : Bytes → Tag → Ports → Ports
ports_on_start service tag s =
    if local_of tag == bytes "service"
    then (if name_of tag == service
        then record s { in_target_service = true; service_depth = 1 }
        else s)
    else if s.in_target_service
    then (if local_of tag == bytes "port" && nat_beq (suc s.service_depth) 2
        then add_name (name_of tag) (record s { service_depth = suc s.service_depth })
        else record s { service_depth = suc s.service_depth })
    else s

unfoldable pub ports_on_empty : Tag → Ports → Ports
ports_on_empty tag s =
    if s.in_target_service && local_of tag == bytes "port" && nat_beq s.service_depth 1
    then add_name (name_of tag) s
    else s

unfoldable pub ports_on_end : Ports → Ports
ports_on_end s =
    if s.in_target_service
    then (if nat_beq (s.service_depth - 1) 0
        then record s { in_target_service = false; service_depth = 0 }
        else record s { service_depth = s.service_depth - 1 })
    else s

-- Pass 1: the names of the ports of the service.
unfoldable pub ports_from : Bytes → Stream → Ports → List Bytes
ports_from service [] s = s.port_names
ports_from service (err e ∷ rest) s = s.port_names
ports_from service (ok item ∷ rest) s = elim item.event [
  | start tag ↦ ports_from service rest (ports_on_start service tag s)
  | empty tag ↦ ports_from service rest (ports_on_empty tag s)
  | end_tag name ↦ ports_from service rest (ports_on_end s)
  | _ ↦ ports_from service rest s
]

abbrev no_ports : Ports
no_ports = record { in_target_service = false; service_depth = 0; port_names = [] }

unfoldable pub target_port_names : Bytes → Stream → List Bytes
unfolding ports_from
target_port_names service events = ports_from service events no_ports

-- The variables of pass 2.
pub record Matched : Type 0 where
  pub in_matched_port : Bool
  pub port_depth : ℕ

abbrev pub outside : Matched
outside = record { in_matched_port = false; port_depth = 0 }

abbrev pub inside : ℕ → Matched
inside d = record { in_matched_port = true; port_depth = d }

module _ (escape : Bytes → Bytes) (targets : List Bytes) (url : Bytes) where
  -- A start tag: what is written, and the new state.
  unfoldable pub match_start : Tag → Matched → Event × Matched
  match_start tag s =
      if local_of tag == bytes "port"
      then (if contains targets (name_of tag)
          then (start tag, inside 1)
          else if s.in_matched_port
          then (start tag, inside (suc s.port_depth))
          else (start tag, s))
      else if s.in_matched_port
      then (if local_of tag == bytes "address"
          then (start (rewritten escape url tag), inside (suc s.port_depth))
          else (start tag, inside (suc s.port_depth)))
      else (start tag, s)

  unfoldable pub match_empty : Tag → Matched → Event × Matched
  match_empty tag s =
      if local_of tag == bytes "port"
      then (if contains targets (name_of tag) then (empty tag, inside 0) else (empty tag, s))
      else if s.in_matched_port && local_of tag == bytes "address"
      then (empty (rewritten escape url tag), s)
      else (empty tag, s)

  unfoldable pub match_end : Matched → Matched
  match_end s =
      if s.in_matched_port
      then (if nat_beq (s.port_depth - 1) 0 then outside else inside (s.port_depth - 1))
      else s

  abbrev pub match_event : Event → Matched → Event × Matched
  match_event (start tag) s = match_start tag s
  match_event (empty tag) s = match_empty tag s
  match_event (end_tag name) s = (end_tag name, match_end s)
  match_event e s = (e, s)

  -- Pass 2.
  unfoldable pub rewrite_matched : Stream → Matched → List Event
  rewrite_matched [] s = []
  rewrite_matched (err e ∷ rest) s = []
  rewrite_matched (ok item ∷ rest) s =
      let (written, s') = match_event item.event s in written ∷ rewrite_matched rest s'

unfoldable pub rewrite_wsdl_address_for_service :
    (Bytes → Bytes) → Stream → Bytes → Bytes → List Event
rewrite_wsdl_address_for_service escape events url [] = rewrite_wsdl_address escape events url
rewrite_wsdl_address_for_service escape events url (c ∷ service) =
    rewrite_matched escape (target_port_names (c ∷ service) events) url events outside
