-- ===== src/Envelope/Tree.antt =====
-- Envelopes as trees: the events that a reader yields for a tree, and the tree as text. This is
-- the description against which the parser is proved.
use soap_server.Prelude.{
  ◌≤◌, ◌≡◌, refl, ap, arith, Bytes, bytes, Option, some, List, [], ◌∷◌, ◌++◌, map, length, ok,
}
use soap_server.Xml.{
  Attribute, accepted, Tag, Event, start, empty, end_tag, text, cdata, general_ref, Resolved,
  Stream,
}
use soap_server.Envelope.Emit.{all_attributes, write_attributes, write_tag, write_end, write_ref}

-- A tag whose attributes are all accepted.
pub record Name : Type 0 where
  pub namespace : Option Bytes
  pub qualified : Bytes
  pub local_name : Bytes
  pub attributes : List Attribute

abbrev pub to_tag : Name → Tag
to_tag n = record {
  name = n.qualified;
  local_name = n.local_name;
  attributes = map some n.attributes;
}

mutual
  pub data Node : Type 0 where
    element : Name → Nodes → Node
    void : Name → Node
    chars section entity : Bytes → Node

  pub data Nodes : Type 0 where
    nil : Nodes
    cons : Node → Nodes → Nodes

abbrev pub at : Option Bytes → Event → Resolved
at ns e = record { namespace = ns; event = e }

-- The events of a node, and after them those of the rest of the document.
unfoldable mutual
  pub events : Node → Stream → Stream
  events (element n kids) rest =
      ok (at n.namespace (start (to_tag n)))
      ∷ events_all kids (ok (at n.namespace (end_tag n.qualified)) ∷ rest)
  events (void n) rest = ok (at n.namespace (empty (to_tag n))) ∷ rest
  events (chars t) rest = ok (at Option.none (text t)) ∷ rest
  events (section t) rest = ok (at Option.none (cdata t)) ∷ rest
  events (entity r) rest = ok (at Option.none (general_ref r)) ∷ rest

  pub events_all : Nodes → Stream → Stream
  events_all nil rest = rest
  events_all (cons n ns) rest = events n (events_all ns rest)

-- The text of a tag, and of a node. A CDATA section has none: the program writes none back.
unfoldable pub print_tag : Name → Bytes → Bytes
print_tag n close = bytes "<" ++ n.qualified ++ write_attributes n.attributes ++ close

unfoldable mutual
  pub print : Node → Bytes
  print (element n kids) = print_tag n (bytes ">") ++ print_all kids ++ write_end n.qualified
  print (void n) = print_tag n (bytes "/>")
  print (chars t) = t
  print (section t) = []
  print (entity r) = write_ref r

  pub print_all : Nodes → Bytes
  print_all nil = []
  print_all (cons n ns) = print n ++ print_all ns

pub accepted-map-some : (attrs : List Attribute) → accepted (map some attrs) ≡ attrs
accepted-map-some [] = refl
accepted-map-some (a ∷ attrs) = ap (λ r. a ∷ r) (accepted-map-some attrs)

pub all_attributes-map-some : (attrs : List Attribute) → all_attributes (map some attrs) ≡ ok attrs
unfolding all_attributes
all_attributes-map-some [] = refl
all_attributes-map-some (a ∷ attrs) = rw (all_attributes-map-some attrs)

pub write_tag-to_tag :
    (n : Name) (close : Bytes) → write_tag (to_tag n) close ≡ ok (print_tag n close)
unfolding write_tag print_tag
write_tag-to_tag n close = rw (all_attributes-map-some n.attributes)

mutual
  unfolding events

  pub length-events : (n : Node) (rest : Stream) → length rest ≤ length (events n rest)
  length-events (element n kids) rest =
      omega (arith, length-events_all kids (ok (at n.namespace (end_tag n.qualified)) ∷ rest))
  length-events (void n) rest = omega arith
  length-events (chars t) rest = omega arith
  length-events (section t) rest = omega arith
  length-events (entity r) rest = omega arith

  pub length-events_all : (ns : Nodes) (rest : Stream) → length rest ≤ length (events_all ns rest)
  length-events_all nil rest = omega arith
  length-events_all (cons n ns) rest =
      omega (arith, length-events n (events_all ns rest), length-events_all ns rest)
