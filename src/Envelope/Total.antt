-- ===== src/Envelope/Total.antt =====
-- The parser always returns: every part of it leaves fewer events.
use soap_server.Prelude.{
  ℕ, zero, suc, ◌≤◌, ◌<◌, ◌≡◌, ◌≢◌, arith, Bytes, Option, none, some, Option-cases, List, [], ◌∷◌,
  length, Result-cases, >>=-eq-ok, ok, err, inl, inr, str_eq,
}
use soap_server.Xml.{Tag, Stream}
use soap_server.Fault.{Fallible}
use soap_server.Wsdl.Definitions.{SoapVersion}
use soap_server.Envelope.Emit.{Bindings, collect_ns_from_attrs}
use soap_server.Envelope.Header.{collect_from, collect_header_children}
use soap_server.Envelope.Body.{copy_from, skip_to_end, skip_from, extract_body_first_child}
use soap_server.Envelope.Parse.{
  ParsedEnvelope, Found, nothing_found, find_envelope, enter_header, enter_body, skip_element,
  enter_child, scan_children, parse_envelope,
}

length-skip_from :
    (s : Stream) (d : ℕ) (rest : Stream) → skip_from s d ≡ ok rest → length rest ≤ length s
unfolding skip_from
length-skip_from [] d rest h = ground arith
length-skip_from (err e ∷ s) d rest h = ground arith
length-skip_from (ok item ∷ s) d rest h = grind (arith, length-skip_from s)

length-copy_from :
    (s : Stream) (d : ℕ) (buf out : Bytes) (rest : Stream)
    → copy_from s d buf ≡ ok (out, rest)
    → length rest ≤ length s
unfolding copy_from
length-copy_from [] d buf out rest h = ground arith
length-copy_from (err e ∷ s) d buf out rest h = ground arith
length-copy_from (ok item ∷ s) d buf out rest h = grind (arith, length-copy_from s)

length-collect_from :
    (b : Bindings) (s : Stream) (d : ℕ) (buf : Bytes) (cs out : List Bytes) (rest : Stream)
    → collect_from b s d buf cs ≡ ok (out, rest)
    → length rest ≤ length s
unfolding collect_from
length-collect_from b [] d buf cs out rest h = ground arith
length-collect_from b (err e ∷ s) d buf cs out rest h = ground arith
length-collect_from b (ok item ∷ s) zero buf cs out rest h = grind (arith, length-collect_from b s)
length-collect_from b (ok item ∷ s) (suc d) buf cs out rest h =
    grind (arith, length-collect_from b s)

length-extract :
    (b : Bindings) (s : Stream) (out : Bytes) (rest : Stream)
    → extract_body_first_child b s ≡ ok (out, rest)
    → length rest ≤ length s
unfolding extract_body_first_child
length-extract b [] out rest h = ground arith
length-extract b (err e ∷ s) out rest h = ground arith
length-extract b (ok item ∷ s) out rest h = grind (arith, length-extract b s, length-copy_from)

module _ (b : Bindings) (tag : Tag) (s : Stream) (found found' : Found) (rest : Stream) where
  length-enter_header : enter_header b tag s found ≡ ok (found', rest) → length rest ≤ length s
  unfolding enter_header collect_header_children
  length-enter_header h =
      let ((out, r), e, h) = >>=-eq-ok (collect_from (collect_ns_from_attrs tag b) s 0 [] []) _ h in
      let shorter = length-collect_from (collect_ns_from_attrs tag b) s 0 [] [] out r e in
      ground arith

  length-enter_body : enter_body b tag s found ≡ ok (found', rest) → length rest ≤ length s
  unfolding enter_body skip_to_end
  length-enter_body h =
      let ((out, r), e, h) =
        >>=-eq-ok (extract_body_first_child (collect_ns_from_attrs tag b) s) _ h in
      let (r', e', h) = >>=-eq-ok (skip_from r 0) _ h in
      let shorter = length-extract (collect_ns_from_attrs tag b) s out r e in
      let again = length-skip_from r 0 r' e' in ground arith

length-skip_element :
    (s : Stream) (found found' : Found) (rest : Stream)
    → skip_element s found ≡ ok (found', rest)
    → length rest ≤ length s
unfolding skip_element skip_to_end
length-skip_element s found found' rest h =
    let (r, e, h) = >>=-eq-ok (skip_from s 0) _ h in
    let shorter = length-skip_from s 0 r e in ground arith

length-enter_child :
    (b : Bindings) (ns : Option Bytes) (tag : Tag) (s : Stream) (found found' : Found)
    (rest : Stream)
    → enter_child b ns tag s found ≡ ok (found', rest)
    → length rest ≤ length s
unfolding enter_child
length-enter_child b ns tag s found found' rest h = ground (
  arith,
  length-enter_header b tag s found found' rest,
  length-enter_body b tag s found found' rest,
  length-skip_element s found found' rest,
)

scan_children_total :
    (f : ℕ) (b : Bindings) (s : Stream) (found : Found)
    → length s < f
    → scan_children f b s found ≢ none
unfolding scan_children
scan_children_total zero b s found l h = elim l [ ]
scan_children_total (suc f) b [] found l h = ground arith
scan_children_total (suc f) b (err e ∷ s) found l h = ground arith
scan_children_total (suc f) b (ok item ∷ s) found l h =
    grind (arith, scan_children_total f b, length-enter_child)

length-find_envelope :
    (s : Stream) (v : SoapVersion) (b : Bindings) (rest : Stream)
    → find_envelope s ≡ ok (v, b, rest)
    → length rest ≤ length s
unfolding find_envelope
length-find_envelope [] v b rest h = ground arith
length-find_envelope (err e ∷ s) v b rest h = ground arith
length-find_envelope (ok item ∷ s) v b rest h = grind (arith, length-find_envelope s)

parse_envelope-ne-none : (s : Stream) → ¬ (parse_envelope s ≡ none)
unfolding parse_envelope
parse_envelope-ne-none s h = elim (Result-cases (find_envelope s)) [
  | inr (fault, e) ↦ ground arith
  | inl ((v, b, rest), e) ↦
      let shorter = length-find_envelope s v b rest e in
      let total = scan_children_total (suc (length s)) b rest nothing_found (omega arith) in
      elim (Option-cases (scan_children (suc (length s)) b rest nothing_found)) [
        | inl none_left ↦ total none_left
        | inr (r, scanned) ↦ ground arith
      ]
]

-- The parser of envelopes returns on every stream of events: the fuel it is given suffices.
pub parse_envelope_total :
    (s : Stream) → (r : Fallible ParsedEnvelope) × (parse_envelope s ≡ some r)
parse_envelope_total s = elim (Option-cases (parse_envelope s)) [
  | inl stuck ↦ absurd (parse_envelope-ne-none s stuck)
  | inr found ↦ found
]
