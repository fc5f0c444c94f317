-- ===== src/Envelope/Losses.antt =====
-- What the parser loses or adds: CDATA sections, and namespace prefixes declared twice.
use soap_server.Prelude.{
  ◌≡◌, refl, sym, ◌∙◌, ap, Bytes, bytes, some, [], ◌∷◌, ◌++◌, ok, contains, str_eq,
}
use soap_server.Envelope.Emit.{
  Bindings, declarations, write_pair, write_attributes, write_end, xmlns_key,
}
use soap_server.Envelope.Body
use soap_server.Envelope.Body.{own_prefixes}
use soap_server.Envelope.Parse.{ParsedEnvelope, parse_envelope}
use soap_server.Envelope.Tree.{
  Name, Node, element, void, chars, section, entity, Nodes, nil, cons, print, print_all, print_tag,
}
use soap_server.Envelope.Document.{
  Child, full, bare, Document, document_events, scope, envelope_scope, body_root, body_fragment,
  parsed,
}
use soap_server.Envelope.RoundTrip.{parse-document}

-- A tree with its CDATA sections taken out.
unfoldable mutual
  pub plain : Node → Nodes → Nodes
  plain (element n kids) rest = cons (element n (plain_all kids)) rest
  plain (void n) rest = cons (void n) rest
  plain (chars t) rest = cons (chars t) rest
  plain (section t) rest = rest
  plain (entity r) rest = cons (entity r) rest

  pub plain_all : Nodes → Nodes
  plain_all nil = nil
  plain_all (cons n ns) = plain n (plain_all ns)

mutual
  unfolding print plain

  print-plain : (n : Node) (rest : Nodes) → print_all (plain n rest) ≡ print n ++ print_all rest
  print-plain (element n kids) rest =
      ap (λ t. ((print_tag n (bytes ">") ++ t) ++ write_end n.qualified) ++ print_all rest)
        (print-plain_all kids)
  print-plain (void n) rest = refl
  print-plain (chars t) rest = refl
  print-plain (section t) rest = refl
  print-plain (entity r) rest = refl

  print-plain_all : (ns : Nodes) → print_all (plain_all ns) ≡ print_all ns
  print-plain_all nil = refl
  print-plain_all (cons n ns) =
      print-plain n (plain_all ns) ∙ ap (λ t. print n ++ t) (print-plain_all ns)

abbrev pub plain_child : Child → Child
plain_child (full n kids) = full n (plain_all kids)
plain_child (bare n) = bare n

body_fragment-plain :
    (b : Bindings) (c : Child) → body_fragment b (plain_child c) ≡ body_fragment b c
body_fragment-plain b (full n kids) =
    ap (λ t. (body_root b n (bytes ">") ++ t) ++ write_end n.qualified) (print-plain_all kids)
body_fragment-plain b (bare n) = refl

abbrev pub without_sections : Document → Document
without_sections d = record d { child = plain_child d.child }

-- A request parses the same with the CDATA sections of its body element as without them.
pub sections_lost :
    (d : Document)
    → parse_envelope (document_events d) ≡ parse_envelope (document_events (without_sections d))
sections_lost d =
    parse-document d
    ∙ ap (λ t. some (ok (record (parsed d) { body_element = t })))
        (sym (body_fragment-plain (scope d.body (envelope_scope d)) d.child))
    ∙ sym (parse-document (without_sections d))

-- If the envelope and the body each declare just one and the same prefix, and the child of the
-- body is an empty tag without attributes, the extracted tag declares the prefix twice.
pub redeclared_prefix :
    (d : Document) (prefix outer inner : Bytes) (n : Name)
    → declarations d.envelope.attributes ≡ (prefix, outer) ∷ []
    → declarations d.body.attributes ≡ (prefix, inner) ∷ []
    → n.attributes ≡ []
    → d.child ≡ bare n
    → (e : ParsedEnvelope) × (parse_envelope (document_events d) ≡ some (ok e))
      × (e.body_element
          ≡ bytes "<"
            ++ n.qualified
            ++ (write_pair (xmlns_key prefix) inner ++ (write_pair (xmlns_key prefix) outer ++ []))
            ++ []
            ++ bytes "/>")
unfolding Body.inherited own_prefixes contains write_attributes
redeclared_prefix d prefix outer inner n o i a c = (parsed d, parse-document d, rw (c, o, i, a))
