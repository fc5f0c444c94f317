-- ===== src/Crossref/Normalize.antt =====
-- `normalize`, the normalisation of layer 1 (crossref/src/normalize.rs). The result is the list of
-- the events written, which quick-xml's `Writer` prints.
use soap_server.Prelude.{
  Bytes, Bool, true, false, some, List, [], ◌∷◌, map, from_utf8, from_utf8_lossy, if◌then◌else◌,
  Result, ok, err, ◌>>=◌, ok_or,
}
use soap_server.Xml.{Attribute, Tag, Event, start, empty, end_tag, text, cdata, Stream, Readers}
use soap_server.Crossref.Masks.{
  MaskRule, local_name, any_matches, push, pop, each_attribute, mask_sentinel,
}
use soap_server.Crossref.Order.{sort_by_key}

-- `BytesStart::new(name)` with the attributes pushed, whose values stand verbatim.
abbrev pub rebuilt : Tag → List Attribute → Tag
rebuilt tag attrs = record {
  name = from_utf8_lossy tag.name;
  local_name = tag.local_name;
  attributes = map some attrs;
}

abbrev pub opening : Bool → Tag → Event
opening is_empty tag = if is_empty then empty tag else start tag

-- `refusal` is the message of the attribute of a tag that quick-xml refuses.
module _ (refusal : Tag → Bytes) where
  unfoldable pub write_sorted_start : Tag → Bool → Result Bytes Event
  unfolding each_attribute sort_by_key from_utf8_lossy
  write_sorted_start tag is_empty = do
    attrs ← each_attribute (refusal tag) tag.attributes
    ok (opening is_empty (rebuilt tag (sort_by_key attrs)))

  -- An event: what is written, and the new stack.
  unfoldable pub normalize_event :
      List MaskRule → Event → List Bytes → Result Bytes (Event × List Bytes)
  unfolding write_sorted_start any_matches pop local_name
  normalize_event masks (start tag) stack = do
    written ← write_sorted_start tag false
    ok (written, push stack (local_name tag.name))
  normalize_event masks (empty tag) stack = do
    written ← write_sorted_start tag true
    ok (written, pop (push stack (local_name tag.name)))
  normalize_event masks (end_tag name) stack = ok (end_tag name, pop stack)
  normalize_event masks (text t) stack =
      ok (text (if any_matches masks stack then mask_sentinel else t), stack)
  normalize_event masks (cdata t) stack =
      ok ((if any_matches masks stack then text mask_sentinel else cdata t), stack)
  normalize_event masks e stack = ok (e, stack)

  unfoldable pub normalize_from : List MaskRule → Stream → List Bytes → Result Bytes (List Event)
  unfolding normalize_event
  normalize_from masks [] stack = ok []
  normalize_from masks (err e ∷ rest) stack = err e
  normalize_from masks (ok item ∷ rest) stack = do
    step ← normalize_event masks item.event stack
    others ← normalize_from masks rest step.1
    ok (step.0 ∷ others)

-- `print` is quick-xml's `Writer`, and `not_utf8` the message of `String::from_utf8`.
unfoldable pub normalize :
    (Tag → Bytes)
    → Readers
    → (List Event → Bytes)
    → (Bytes → Bytes)
    → Bytes
    → List MaskRule
    → Result Bytes Bytes
unfolding normalize_from from_utf8
normalize refusal readers print not_utf8 xml masks = do
  written ← normalize_from refusal masks (readers.raw xml) []
  ok_or (not_utf8 (print written)) (from_utf8 (print written))
