-- ===== src/Crossref/Reordering.antt =====
-- Documents that differ in the order of attributes, under `normalize` (crossref/src/normalize.rs).
use soap_server.Prelude.{
  ◌≡◌, refl, ap, Bytes, Bool, true, false, Option, some, List, [], ◌∷◌, map, ok, err, >>=_congr,
}
use soap_server.Xml.{Attribute, Tag, Event, start, empty, Stream}
use soap_server.Envelope.Tree.{at}
use soap_server.Crossref.Masks.{MaskRule, map_ok, add_event, each_attribute-map-some}
use soap_server.Crossref.Order.{Reordered, sort_by_key-Reordered}
use soap_server.Crossref.Normalize.{write_sorted_start, normalize_event, normalize_from}

-- Two tags that differ in the order of their attributes.
pub data SameTag : Tag → Tag → Type 0 where
  same_tag :
      (name local : Bytes) {xs ys : List Attribute}
      → Reordered xs ys
      → SameTag
          (record { name = name; local_name = local; attributes = map some xs })
          (record { name = name; local_name = local; attributes = map some ys })

pub data SameEvent : Event → Event → Type 0 where
  starts : {t u : Tag} → SameTag t u → SameEvent (start t) (start u)
  empties : {t u : Tag} → SameTag t u → SameEvent (empty t) (empty u)
  alike : (e : Event) → SameEvent e e

-- Two documents that differ in the order of attributes.
pub data SameStream : Stream → Stream → Type 0 where
  done : SameStream [] []
  failed : (e : Bytes) (s t : Stream) → SameStream (err e ∷ s) (err e ∷ t)
  next :
      (n m : Option Bytes) {e f : Event} {s t : Stream}
      → SameEvent e f
      → SameStream s t
      → SameStream (ok (at n e) ∷ s) (ok (at m f) ∷ t)

module _ (refusal : Tag → Bytes) where
  write_sorted_start-SameTag :
      (is_empty : Bool) {t u : Tag}
      → SameTag t u
      → write_sorted_start refusal t is_empty ≡ write_sorted_start refusal u is_empty
  unfolding write_sorted_start
  write_sorted_start-SameTag is_empty (same_tag name local {xs} {ys} r) =
      rw (each_attribute-map-some _ xs, each_attribute-map-some _ ys, sort_by_key-Reordered r)

  normalize_event-SameEvent :
      (masks : List MaskRule) (stack : List Bytes) {e f : Event}
      → SameEvent e f
      → normalize_event refusal masks e stack ≡ normalize_event refusal masks f stack
  unfolding normalize_event
  normalize_event-SameEvent masks stack (starts (same_tag name local r)) =
      rw (write_sorted_start-SameTag false (same_tag name local r))
  normalize_event-SameEvent masks stack (empties (same_tag name local r)) =
      rw (write_sorted_start-SameTag true (same_tag name local r))
  normalize_event-SameEvent masks stack (alike e) = refl

  pub normalize_from-SameStream :
      (masks : List MaskRule) (stack : List Bytes) {s t : Stream}
      → SameStream s t
      → normalize_from refusal masks s stack ≡ normalize_from refusal masks t stack
  unfolding normalize_from
  normalize_from-SameStream masks stack done = refl
  normalize_from-SameStream masks stack (failed e s t) = refl
  normalize_from-SameStream masks stack (next n m {e} {f} {s} {t} same r) =
      rw (normalize_event-SameEvent masks stack same) (
        >>=_congr (normalize_event refusal masks f stack) _ _
          (λ step. ap (map_ok (add_event step.0)) (normalize_from-SameStream masks step.1 r)))
