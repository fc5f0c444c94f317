-- ===== src/Wsdl/Locations.antt =====
-- Where the addresses of a rewritten document point (src/wsdl/resolver.rs).
use mathlib.Core.Path.{subst}
use soap_server.Prelude.{
  sym, ◌≡◌, refl, arith, Bytes, bytes, true, Bool-cases, inl, inr, List, [], ◌∷◌, All, str_eq, ◌==◌,
  ok, err,
}
use soap_server.Xml.{
  Attribute, accepted, Tag, Event, start, empty, end_tag, text, cdata, general_ref, other, Stream,
}
use soap_server.Envelope.Tree.{accepted-map-some}
use soap_server.Wsdl.Address.{
  local_of, is_location, relocate, rewritten, rewrite_tag, rewrite_event, rewrite_wsdl_address,
}

module _ (escape : Bytes → Bytes) (url : Bytes) where
  abbrev pub LocatedAt : Attribute → Type 0
  LocatedAt attr = is_location attr ≡ true → attr.value ≡ escape url

  -- If the tag is an address, each of its locations is the URL.
  abbrev pub TagPointsTo : Tag → Type 0
  TagPointsTo tag =
      (local_of tag == bytes "address") ≡ true → All LocatedAt (accepted tag.attributes)

  abbrev pub PointsTo : Event → Type 0
  PointsTo (start tag) = TagPointsTo tag
  PointsTo (empty tag) = TagPointsTo tag
  PointsTo _ = Unit {0}

  relocate-LocatedAt : (attrs : List Attribute) → All LocatedAt (relocate escape url attrs)
  unfolding relocate
  relocate-LocatedAt [] = tt
  relocate-LocatedAt (attr ∷ attrs) = elim (Bool-cases (is_location attr)) [
    | inl here ↦ (λ h. ground arith, relocate-LocatedAt attrs)
    | inr differs ↦ (λ h. absurd (ground arith), relocate-LocatedAt attrs)
  ]

  rewrite_tag-TagPointsTo : (tag : Tag) → TagPointsTo (rewrite_tag escape url tag)
  rewrite_tag-TagPointsTo tag = elim (Bool-cases (local_of tag == bytes "address")) [
    | inl here ↦
        let e : rewrite_tag escape url tag ≡ rewritten escape url tag = rw here refl in
        subst TagPointsTo (sym e) (λ _.
          subst (All LocatedAt)
            (sym (accepted-map-some (relocate escape url (accepted tag.attributes))))
            (relocate-LocatedAt (accepted tag.attributes)))
    | inr differs ↦
        let e : rewrite_tag escape url tag ≡ tag = rw differs refl in
        subst TagPointsTo (sym e) (λ h. absurd (ground arith))
  ]

  rewrite_event-PointsTo : (e : Event) → PointsTo (rewrite_event escape url e)
  rewrite_event-PointsTo (start tag) = rewrite_tag-TagPointsTo tag
  rewrite_event-PointsTo (empty tag) = rewrite_tag-TagPointsTo tag
  rewrite_event-PointsTo (end_tag name) = tt
  rewrite_event-PointsTo (text t) = tt
  rewrite_event-PointsTo (cdata t) = tt
  rewrite_event-PointsTo (general_ref t) = tt
  rewrite_event-PointsTo other = tt

  pub rewritten-PointsTo : (s : Stream) → All PointsTo (rewrite_wsdl_address escape s url)
  unfolding rewrite_wsdl_address
  rewritten-PointsTo [] = tt
  rewritten-PointsTo (err e ∷ rest) = tt
  rewritten-PointsTo (ok item ∷ rest) = (rewrite_event-PointsTo item.event, rewritten-PointsTo rest)
