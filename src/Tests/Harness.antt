-- ===== src/Tests/Harness.antt =====
-- The cross-reference harness, on concrete inputs.
use soap_server.Prelude.{
  ◌≡◌, ◌↔◌, refl, Bytes, bytes, true, false, none, List, [], ◌∷◌, ok, str_eq, ◌==◌, str_beq,
  if◌then◌else◌, split_at_byte, utf8_or_empty, strip_prefix, some, from_utf8_lossy,
}
use soap_server.Xml.{Attribute, Tag, Stream, start, empty, end_tag, text}
use soap_server.Envelope.Tree.{Name, element, chars, entity, nil, cons, at, events, events_all}
use soap_server.Crossref.Masks.{new_mask, any_matches, local_name, map_ok, mask_sentinel}
use soap_server.Crossref.Verdict.{pass, Resp, evaluate_outcome_equivalence}
use soap_server.Crossref.Judgement.{Honoured, outcome_pass}
use soap_server.Crossref.Normalize.{normalize_from}
use soap_server.Crossref.Drop.{drop_subtrees, mask_from}
use soap_server.Crossref.Pruning.{prune_all, written_all, drop_subtrees-prune}
use soap_server.Crossref.Hiding.{masked_tag, sorted_tag, leaked, masked_element, normalize_leaks}
use soap_server.Crossref.Prefixes.{
  Resolution, bound, unbound, SeenStream, attr_uri, is_declaration, is_reserved, foreign_uri,
}
use soap_server.Crossref.Canonical.{canonicalize_prefixes}
use soap_server.Crossref.Equivalence.{
  seen, tags, SameAttrs, starts, ends, done, renamed, declared_left,
}
use soap_server.Crossref.Covered.{plain_tag}
use soap_server.Wsdl.Address.{rewrite_wsdl_address, relocate, tag_name}
use soap_server.Wsdl.Rewriting.{reread}
use soap_server.Crossref.Addresses.{
  check_single_rewrite_invariant, host_part, extract_soap_addresses, raw_local,
}
use soap_server.Crossref.Agreement.{single_check_accepts}
use soap_server.Crossref.Alike.{canonicalize_prefixes-Equivalent}

abbrev refusal : Tag → Bytes
refusal tag = bytes "refused"

abbrev named : Bytes → Name
named n = record { namespace = none; qualified = n; local_name = n; attributes = [] }

drop_subtrees-prune_example :
    drop_subtrees
      (events_all
        (cons (element (named (bytes "E")) (cons (element (named (bytes "H")) nil) nil)) nil)
        [])
      (new_mask (bytes "E/H") ∷ [])
    ≡ ok (
        written_all
          (prune_all
            (new_mask (bytes "E/H") ∷ [])
            []
            (cons (element (named (bytes "E")) (cons (element (named (bytes "H")) nil) nil)) nil))
          [])
drop_subtrees-prune_example =
    drop_subtrees-prune (new_mask (bytes "E/H") ∷ [])
      (cons (element (named (bytes "E")) (cons (element (named (bytes "H")) nil) nil)) nil)

masked_element_example :
    mask_from refusal
      (new_mask (bytes "F") ∷ [])
      []
      (events
        (element (named (bytes "F")) (cons (chars (bytes "a")) (cons (entity (bytes "lt")) nil)))
        [])
      (record { stack = []; sentinel_written = false })
    ≡ map_ok
        (λ others.
          start (masked_tag [] [] (named (bytes "F")))
          ∷ text mask_sentinel
          ∷ end_tag (bytes "F")
          ∷ others)
        (mask_from refusal
          (new_mask (bytes "F") ∷ [])
          []
          []
          (record { stack = []; sentinel_written = false }))
unfolding any_matches new_mask local_name bytes str_beq
masked_element_example =
    masked_element refusal (new_mask (bytes "F") ∷ []) [] (named (bytes "F"))
      (cons (chars (bytes "a")) (cons (entity (bytes "lt")) nil)) []
      (record { stack = []; sentinel_written = false }) tt refl

normalize_leaks_example :
    normalize_from refusal
      (new_mask (bytes "F") ∷ [])
      (events
        (element (named (bytes "F")) (cons (chars (bytes "a")) (cons (entity (bytes "lt")) nil)))
        [])
      []
    ≡ map_ok
        (λ others.
          start (sorted_tag (named (bytes "F")))
          ∷ leaked
              (cons (chars (bytes "a")) (cons (entity (bytes "lt")) nil))
              (end_tag (bytes "F") ∷ others))
        (normalize_from refusal (new_mask (bytes "F") ∷ []) [] [])
unfolding any_matches new_mask local_name bytes str_beq
normalize_leaks_example =
    normalize_leaks refusal (new_mask (bytes "F") ∷ []) (named (bytes "F"))
      (cons (chars (bytes "a")) (cons (entity (bytes "lt")) nil)) [] [] tt refl

abbrev answer : Resp
answer = record { schema_valid = true; is_success = true; masked_body_canon = bytes "B" }

outcome_pass_example :
    (evaluate_outcome_equivalence true answer answer ≡ pass) ↔ Honoured true answer answer
outcome_pass_example = outcome_pass true answer answer

-- One prefix is bound.
abbrev binds : Bytes → Bytes → Resolution
binds name key = if name == key then bound (bytes "u") else unbound

-- An element under a prefix with some attributes.
abbrev document : Bytes → Bytes → List Attribute → SeenStream
document name bound_name attrs =
    ok (seen (bound (bytes "u")) (start (plain_tag name (bytes "E") attrs)) (binds bound_name))
    ∷ ok (seen (bound (bytes "u")) (end_tag name) (binds bound_name))
    ∷ []

abbrev attribute : Bytes → Bytes → Attribute
attribute key value = record { key = key; value = value }

abbrev with_a : SeenStream
with_a =
    document (bytes "a:E") (bytes "a:k")
      (attribute (bytes "xmlns:a") (bytes "u") ∷ attribute (bytes "a:k") (bytes "v") ∷ [])

abbrev with_b : SeenStream
with_b = document (bytes "b:E") (bytes "b:k") (attribute (bytes "b:k") (bytes "v") ∷ [])

canonicalize_prefixes-Equivalent_example :
    canonicalize_prefixes refusal with_a ≡ canonicalize_prefixes refusal with_b
unfolding attr_uri is_declaration is_reserved foreign_uri local_name split_at_byte bytes str_beq
canonicalize_prefixes-Equivalent_example = canonicalize_prefixes-Equivalent refusal (
    starts (bound (bytes "u")) (binds (bytes "a:k")) (binds (bytes "b:k"))
      (tags (bytes "a:E") (bytes "b:E") (bytes "E") (bytes "E") refl (
        declared_left (attribute (bytes "xmlns:a") (bytes "u")) refl (
          renamed (attribute (bytes "a:k") (bytes "v")) (attribute (bytes "b:k") (bytes "v"))
            (bytes "u") (bytes "a") (bytes "b") (bytes "k") refl refl refl refl refl
            SameAttrs.nil)))
      (ends (bound (bytes "u")) (bound (bytes "u")) (binds (bytes "a:k")) (binds (bytes "b:k"))
        (bytes "a:E") (bytes "b:E") done))

abbrev bare : Bytes → Attribute → Tag
bare name attr = record { name = name; local_name = name; attributes = some attr ∷ [] }

-- A service with one address.
abbrev service_wsdl : Stream
service_wsdl =
    ok (at none (start (bare (bytes "service") (attribute (bytes "name") (bytes "S")))))
    ∷ ok (at none (empty (bare (bytes "address") (attribute (bytes "location") (bytes "old")))))
    ∷ []

abbrev base : Bytes
base = bytes "http://h:1"

single_check_accepts_example :
    check_single_rewrite_invariant
      (reread (rewrite_wsdl_address (λ s. s) service_wsdl (bytes "http://h:1/soap")))
      base
    ≡ ok tt
unfolding from_utf8_lossy bytes host_part extract_soap_addresses rewrite_wsdl_address str_beq
    utf8_or_empty relocate raw_local strip_prefix tag_name
single_check_accepts_example =
    single_check_accepts (λ s. s) (bytes "http://h:1/soap") base service_wsdl
      (bytes "S", bytes "http://h:1/soap") [] (λ e. e, (λ e. e, tt)) refl refl
