-- ===== src/Envelope/RoundTrip.antt =====
-- Parsing the events of an envelope gives back its parts.
use soap_server.Prelude.{
  ℕ, zero, suc, ◌≤◌, ◌<◌, ◌≡◌, refl, arith, Bytes, bytes, true, false, Option, none, some, List, [],
  ◌∷◌, length, ok, str_eq, str_beq, ==_refl, ◌==◌,
}
use soap_server.Xml.{Tag, start, end_tag, Stream}
use soap_server.Wsdl.Definitions.{SoapVersion, soap11, soap12}
use soap_server.Envelope.Emit.{Bindings, collect_ns_from_attrs}
use soap_server.Envelope.Header.{collect_header_children}
use soap_server.Envelope.Body.{write_body_root, skip_to_end, extract_body_first_child}
use soap_server.Envelope.Parse.{
  Found, nothing_found, find_envelope, version_of_ns, is_soap_ns, enter_header, enter_body,
  enter_child, scan_children, parse_envelope,
}
use soap_server.Envelope.Serialize.{envelope_ns}
use soap_server.Envelope.Tree.{
  Name, to_tag, Nodes, at, events, events_all, accepted-map-some, all_attributes-map-some,
  length-events, length-events_all,
}
use soap_server.Envelope.Copy.{
  header_fragments, copy_from-events_all, skip_from-events_all, collect_from-children,
}
use soap_server.Envelope.Document.{
  Child, child_node, Part, HeaderPart, Document, soap_name, close_part, texts, header_events,
  body_events, inner_events, document_events, scope, envelope_scope, body_root, body_fragment,
  fragments_of, parsed, full, bare,
}

write_body_root-to_tag :
    (b : Bindings) (n : Name) (close : Bytes)
    → write_body_root b (to_tag n) close ≡ ok (body_root b n close)
unfolding write_body_root
write_body_root-to_tag b n close = rw (all_attributes-map-some n.attributes)

extract-child :
    (b : Bindings) (gap : List Bytes) (c : Child) (rest : Stream)
    → extract_body_first_child b (texts gap (events (child_node c) rest))
      ≡ ok (body_fragment b c, rest)
unfolding extract_body_first_child events
extract-child b [] (full n kids) rest = rw (write_body_root-to_tag b n (bytes ">")) (
    copy_from-events_all kids (ok (at n.namespace (end_tag n.qualified)) ∷ rest) 0
      (body_root b n (bytes ">")))
extract-child b [] (bare n) rest = rw (write_body_root-to_tag b n (bytes "/>"))
extract-child b (t ∷ gap) c rest = extract-child b gap c rest

version_of_ns-envelope_ns : (v : SoapVersion) → version_of_ns (envelope_ns v) ≡ ok v
unfolding version_of_ns bytes str_beq
version_of_ns-envelope_ns soap11 = refl
version_of_ns-envelope_ns soap12 = refl

is_soap_ns-envelope_ns : (v : SoapVersion) → is_soap_ns (some (envelope_ns v)) ≡ true
unfolding bytes str_beq
is_soap_ns-envelope_ns soap11 = refl
is_soap_ns-envelope_ns soap12 = refl

find-document :
    (d : Document)
    → find_envelope (document_events d) ≡ ok (d.version, envelope_scope d, inner_events d)
unfolding find_envelope
find-document d = rw (
  ==_refl (bytes "Envelope"),
  version_of_ns-envelope_ns d.version,
  all_attributes-map-some d.envelope.attributes,
  find_envelope,
)

collect-scope :
    (v : SoapVersion) (local : Bytes) (p : Part) (b : Bindings)
    → collect_ns_from_attrs (to_tag (soap_name v local p)) b ≡ scope p b
unfolding collect_ns_from_attrs
collect-scope v local p b = rw (accepted-map-some p.attributes)

body_is_not_header : (bytes "Body" == bytes "Header") ≡ false
unfolding bytes str_beq
body_is_not_header = refl

module _ (b : Bindings) (v : SoapVersion) (found : Found) (rest : Stream) where
  enter_child-header :
      (h : HeaderPart)
      → enter_child b
          (some (envelope_ns v))
          (to_tag (soap_name v (bytes "Header") h.part))
          (events_all h.children (close_part v h.part rest))
          found
        ≡ ok (record found { header_children = header_fragments (scope h.part b) h.children }, rest)
  unfolding enter_child enter_header collect_header_children
  enter_child-header h = rw (
    is_soap_ns-envelope_ns v,
    ==_refl (bytes "Header"),
    collect-scope v (bytes "Header") h.part b,
    collect_from-children (scope h.part b) h.children h.part.qualified (some (envelope_ns v)) rest
        [] [],
  )

  enter_child-body :
      (p : Part) (gap : List Bytes) (c : Child) (after : Nodes)
      → enter_child b
          (some (envelope_ns v))
          (to_tag (soap_name v (bytes "Body") p))
          (texts gap (events (child_node c) (events_all after (close_part v p rest))))
          found
        ≡ ok (
          record found { found_body = true; body_element = some (body_fragment (scope p b) c) },
          rest,
        )
  unfolding enter_child enter_body skip_to_end
  enter_child-body p gap c after = rw (
    is_soap_ns-envelope_ns v,
    body_is_not_header,
    ==_refl (bytes "Body"),
    collect-scope v (bytes "Body") p b,
    extract-child (scope p b) gap c (events_all after (close_part v p rest)),
    skip_from-events_all after (close_part v p rest) 0,
  )

-- The scan of `rest` ends in `r`, on any fuel above its length.
abbrev Scans : Bindings → Stream → Found → Found → Type 0
Scans b rest found r = (f : ℕ) → length rest < f → scan_children f b rest found ≡ some (ok r)

length-texts : (gap : List Bytes) (rest : Stream) → length rest ≤ length (texts gap rest)
length-texts [] rest = omega arith
length-texts (t ∷ gap) rest = omega (arith, length-texts gap rest)

-- What follows the body is shorter than what follows its start tag.
shorter :
    (d : Document)
    → length (close_part d.version d.envelope d.trailing)
      ≤ length (
          texts d.gap₃ (
            events (child_node d.child) (
              events_all d.after
                (close_part d.version d.body (close_part d.version d.envelope d.trailing)))))
shorter d =
    let end = close_part d.version d.body (close_part d.version d.envelope d.trailing) in
    omega (
      arith,
      length-events_all d.after end,
      length-events (child_node d.child) (events_all d.after end),
      length-texts d.gap₃ (events (child_node d.child) (events_all d.after end)),
    )

module _ (b : Bindings) where
  Scans-texts :
      (gap : List Bytes) (rest : Stream) (found r : Found)
      → Scans b rest found r
      → Scans b (texts gap rest) found r
  unfolding scan_children
  Scans-texts [] rest found r s f h = s f h
  Scans-texts (t ∷ gap) rest found r s zero h = elim h [ ]
  Scans-texts (t ∷ gap) rest found r s (suc f) h = Scans-texts gap rest found r s f (omega arith)

  Scans-end :
      (m : Option Bytes) (e : Bytes) (rest : Stream) (found : Found)
      → Scans b (ok (at m (end_tag e)) ∷ rest) found found
  unfolding scan_children
  Scans-end m e rest found zero h = elim h [ ]
  Scans-end m e rest found (suc f) h = refl

  Scans-child :
      (m : Option Bytes) (tag : Tag) (inside rest : Stream) (found found' r : Found)
      → enter_child b m tag inside found ≡ ok (found', rest)
      → length rest ≤ length inside
      → Scans b rest found' r
      → Scans b (ok (at m (start tag)) ∷ inside) found r
  unfolding scan_children
  Scans-child m tag inside rest found found' r e l s zero h = elim h [ ]
  Scans-child m tag inside rest found found' r e l s (suc f) h =
      rw (e, scan_children) (s f (omega arith))

  Scans-header :
      (v : SoapVersion) (header : Option HeaderPart) (rest : Stream) (r : Found)
      → Scans b rest (record nothing_found { header_children = fragments_of b header }) r
      → Scans b (header_events v header rest) nothing_found r
  Scans-header v none rest r s = s
  Scans-header v (some h) rest r s =
      Scans-child _ _ _ rest nothing_found _ r (enter_child-header b v nothing_found rest h)
        (omega (arith, length-events_all h.children (close_part v h.part rest))) s

  Scans-body :
      (d : Document) (found : Found)
      → Scans b (body_events d) found (record found {
        found_body = true;
        body_element = some (body_fragment (scope d.body b) d.child);
      })
  Scans-body d found =
      let last = close_part d.version d.envelope d.trailing in
      Scans-child _ _ _ last found _ _
        (enter_child-body b d.version found last d.body d.gap₃ d.child d.after) (shorter d)
        (Scans-end _ _ _ _)

-- The events of an envelope of any shape (text between its parts, any attributes, any header
-- children, any tree as the first child of the body, anything after it) parse to its version,
-- one fragment per header element, and the body element printed with the declarations of its
-- ancestors.
pub parse-document : (d : Document) → parse_envelope (document_events d) ≡ some (ok (parsed d))
unfolding parse_envelope
parse-document d =
    let b = envelope_scope d in
    let found = record nothing_found { header_children = fragments_of b d.header } in
    let scanned = Scans-texts b d.gap₁ _ nothing_found _ (
      Scans-header b d.version d.header _ _
        (Scans-texts b d.gap₂ (body_events d) found _ (Scans-body b d found))) in
    rw (find-document d, scanned (suc (length (document_events d))) (omega arith))
