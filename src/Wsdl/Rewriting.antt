-- ===== src/Wsdl/Rewriting.antt =====
-- Rewriting the addresses of a whole document (src/wsdl/resolver.rs).
use soap_server.Prelude.{
  ◌≡◌, refl, sym, ◌∙◌, ap, ap₂, arith, Bytes, bytes, Bool, true, false, Option-cases, Bool-cases,
  inl, inr, Option, none, some, List, [], ◌∷◌, map, str_eq, str_beq, ◌==◌, from_utf8, utf8_or_empty,
  if◌then◌else◌, ok, err,
}
use soap_server.Xml.{
  Attribute, accepted, Tag, Event, start, empty, end_tag, text, cdata, general_ref, other, Stream,
}
use soap_server.Envelope.Tree.{accepted-map-some}
use soap_server.Wsdl.Address.{
  local_of, is_location, relocate, tag_name, rewritten, rewrite_tag, rewrite_event,
  rewrite_wsdl_address,
}

-- The events of a written document, read again.
abbrev pub reread : List Event → Stream
reread [] = []
reread (e ∷ es) = ok (record { namespace = none; event = e }) ∷ reread es

pub is_location-location : (utf8_or_empty (bytes "location") == bytes "location") ≡ true
unfolding utf8_or_empty bytes str_beq
is_location-location = refl

from_utf8-address : from_utf8 (bytes "address") ≡ some (bytes "address")
unfolding from_utf8 bytes
from_utf8-address = refl

tag_name-tag_name : (name : Bytes) → tag_name (tag_name name) ≡ tag_name name
unfolding tag_name
tag_name-tag_name name = elim (Option-cases (from_utf8 name)) [
  | inl invalid ↦ ground (arith, from_utf8-address)
  | inr (valid, e) ↦ ground arith
]

if-true {ℓ} : {A : Type ℓ} {b : Bool} (x y : A) → b ≡ true → (if b then x else y) ≡ x
if-true x y h = rw h refl

if-false {ℓ} : {A : Type ℓ} {b : Bool} (x y : A) → b ≡ false → (if b then x else y) ≡ y
if-false x y h = rw h refl

abbrev rebuilt : Bytes → Tag → List (Option Attribute) → Tag
rebuilt name tag attrs = record { name = name; local_name = tag.local_name; attributes = attrs }

module _ (escape : Bytes → Bytes) where
  relocate-relocate :
      (a b : Bytes) (attrs : List Attribute)
      → relocate escape b (relocate escape a attrs) ≡ relocate escape b attrs
  unfolding relocate
  relocate-relocate a b [] = refl
  relocate-relocate a b (attr ∷ attrs) = elim (Bool-cases (is_location attr)) [
    | inl here ↦ ground (arith, is_location-location, relocate-relocate a b attrs)
    | inr differs ↦ ground (arith, relocate-relocate a b attrs)
  ]

  rewritten-rewritten :
      (a b : Bytes) (tag : Tag)
      → rewritten escape b (rewritten escape a tag) ≡ rewritten escape b tag
  rewritten-rewritten a b tag =
      ap₂ (λ name attrs. rebuilt name tag (map some attrs)) (tag_name-tag_name tag.name)
        (ap (relocate escape b) (accepted-map-some (relocate escape a (accepted tag.attributes)))
          ∙ relocate-relocate a b (accepted tag.attributes))

  rewrite_tag-rewrite_tag :
      (a b : Bytes) (tag : Tag)
      → rewrite_tag escape b (rewrite_tag escape a tag) ≡ rewrite_tag escape b tag
  rewrite_tag-rewrite_tag a b tag = elim (Bool-cases (local_of tag == bytes "address")) [
    | inl here ↦
        ap (rewrite_tag escape b) (if-true _ _ here)
        ∙ if-true _ _ here
        ∙ rewritten-rewritten a b tag
        ∙ sym (if-true _ _ here)
    | inr differs ↦ ap (rewrite_tag escape b) (if-false _ _ differs)
  ]

  rewrite_event-rewrite_event :
      (a b : Bytes) (e : Event)
      → rewrite_event escape b (rewrite_event escape a e) ≡ rewrite_event escape b e
  rewrite_event-rewrite_event a b (start tag) = ap start (rewrite_tag-rewrite_tag a b tag)
  rewrite_event-rewrite_event a b (empty tag) = ap empty (rewrite_tag-rewrite_tag a b tag)
  rewrite_event-rewrite_event a b (end_tag name) = refl
  rewrite_event-rewrite_event a b (text t) = refl
  rewrite_event-rewrite_event a b (cdata t) = refl
  rewrite_event-rewrite_event a b (general_ref t) = refl
  rewrite_event-rewrite_event a b other = refl

  -- Rewriting the addresses of a document that was rewritten before gives the same as
  -- rewriting the first document.
  pub last_rewrite_wins :
      (a b : Bytes) (s : Stream)
      → rewrite_wsdl_address escape (reread (rewrite_wsdl_address escape s a)) b
        ≡ rewrite_wsdl_address escape s b
  unfolding rewrite_wsdl_address
  last_rewrite_wins a b [] = refl
  last_rewrite_wins a b (err e ∷ rest) = refl
  last_rewrite_wins a b (ok item ∷ rest) =
      ap₂ (λ e es. e ∷ es) (rewrite_event-rewrite_event a b item.event) (last_rewrite_wins a b rest)
