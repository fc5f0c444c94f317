-- ===== src/Envelope/Document.antt =====
-- Envelopes as trees, their events, and what the parser must make of them.
use soap_server.Prelude.{Bytes, bytes, Option, none, some, List, [], ◌∷◌, ◌++◌, ok, str_eq}
use soap_server.Xml.{Attribute, start, end_tag, text, Stream}
use soap_server.Wsdl.Definitions.{SoapVersion}
use soap_server.Envelope.Emit.{Bindings, declarations, write_attributes, write_end}
use soap_server.Envelope.Body
use soap_server.Envelope.Body.{
  own_prefixes, write_body_root, copy_from, skip_to_end, skip_from, extract_body_first_child,
}
use soap_server.Envelope.Parse.{ParsedEnvelope}
use soap_server.Envelope.Serialize.{envelope_ns}
use soap_server.Envelope.Tree.{
  Name, to_tag, Node, element, void, Nodes, at, events, events_all, print_all,
}
use soap_server.Envelope.Copy.{header_fragments}

-- The first child of the body: an element, or an empty tag.
pub data Child : Type 0 where
  full : Name → Nodes → Child
  bare : Name → Child

abbrev pub child_node : Child → Node
child_node (full n kids) = element n kids
child_node (bare n) = void n

-- A part of an envelope that the SOAP namespace names: its tag as written, and its attributes.
pub record Part : Type 0 where
  pub qualified : Bytes
  pub attributes : List Attribute

pub record HeaderPart : Type 0 where
  pub part : Part
  pub children : Nodes

-- An envelope: text may stand between its parts, and anything behind the first child of the body.
pub record Document : Type 0 where
  pub version : SoapVersion
  pub envelope : Part
  pub gap₁ : List Bytes
  pub header : Option HeaderPart
  pub gap₂ : List Bytes
  pub body : Part
  pub gap₃ : List Bytes
  pub child : Child
  pub after : Nodes
  pub trailing : Stream

abbrev pub soap_name : SoapVersion → Bytes → Part → Name
soap_name v local p = record {
  namespace = some (envelope_ns v);
  qualified = p.qualified;
  local_name = local;
  attributes = p.attributes;
}

abbrev pub open_part : SoapVersion → Bytes → Part → Stream → Stream
open_part v local p rest =
    ok (at (some (envelope_ns v)) (start (to_tag (soap_name v local p)))) ∷ rest

abbrev pub close_part : SoapVersion → Part → Stream → Stream
close_part v p rest = ok (at (some (envelope_ns v)) (end_tag p.qualified)) ∷ rest

abbrev pub texts : List Bytes → Stream → Stream
texts [] rest = rest
texts (t ∷ ts) rest = ok (at none (text t)) ∷ texts ts rest

abbrev pub header_events : SoapVersion → Option HeaderPart → Stream → Stream
header_events v none rest = rest
header_events v (some h) rest =
    open_part v (bytes "Header") h.part (events_all h.children (close_part v h.part rest))

abbrev pub body_events : Document → Stream
body_events d = open_part d.version (bytes "Body") d.body (
    texts d.gap₃ (
      events (child_node d.child) (
        events_all d.after
          (close_part d.version d.body (close_part d.version d.envelope d.trailing)))))

abbrev pub inner_events : Document → Stream
inner_events d = texts d.gap₁ (header_events d.version d.header (texts d.gap₂ (body_events d)))

abbrev pub document_events : Document → Stream
document_events d = open_part d.version (bytes "Envelope") d.envelope (inner_events d)

-- The bindings in scope below a part.
abbrev pub scope : Part → Bindings → Bindings
scope p inherited = declarations p.attributes ++ inherited

abbrev pub envelope_scope : Document → Bindings
envelope_scope d = declarations d.envelope.attributes

abbrev pub body_root : Bindings → Name → Bytes → Bytes
body_root b n close =
    bytes "<"
    ++ n.qualified
    ++ Body.inherited (own_prefixes n.attributes) b
    ++ write_attributes n.attributes
    ++ close

abbrev pub body_fragment : Bindings → Child → Bytes
body_fragment b (full n kids) = body_root b n (bytes ">") ++ print_all kids ++ write_end n.qualified
body_fragment b (bare n) = body_root b n (bytes "/>")

abbrev pub fragments_of : Bindings → Option HeaderPart → List Bytes
fragments_of b none = []
fragments_of b (some h) = header_fragments (scope h.part b) h.children

abbrev pub parsed : Document → ParsedEnvelope
parsed d = record {
  soap_version = d.version;
  header_children = fragments_of (envelope_scope d) d.header;
  body_element = body_fragment (scope d.body (envelope_scope d)) d.child;
}
