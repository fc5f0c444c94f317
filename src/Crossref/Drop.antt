-- ===== src/Crossref/Drop.antt =====
-- `drop_subtrees` and `apply_masks`, the passes of layer 2 over the events of a document
-- (crossref/src/normalize.rs).
use soap_server.Prelude.{
  ℕ, Bytes, Bool, true, false, ◌&&◌, ◌||◌, Option, none, some, List, [], ◌∷◌, length, nat_beq,
  from_utf8_lossy, str_eq, ◌==◌, if◌then◌else◌, Result, ok, err, ◌>>=◌,
}
use soap_server.Xml.{Attribute, Tag, Event, start, empty, end_tag, text, cdata, general_ref, Stream}
use soap_server.Crossref.Masks.{
  MaskRule, local_name, split_slash, same_path, any_matches, push, pop, each_attribute,
  mask_sentinel,
}
use soap_server.Crossref.Order.{sort_by_key}
use soap_server.Crossref.Normalize.{rebuilt, opening}

-- The variables of `drop_subtrees`.
pub record Dropping : Type 0 where
  pub stack : List Bytes
  pub drop_depth : Option ℕ

abbrev is_dropping : Dropping → Bool
is_dropping s = elim s.drop_depth [ none ↦ false | some d ↦ true ]

abbrev keep_unless : Bool → Event → Option Event
keep_unless dropped e = if dropped then none else some e

abbrev enter : List MaskRule → Tag → List Bytes → Option Event × Dropping
enter rules tag stack =
    if any_matches rules stack
    then (none, record { stack = stack; drop_depth = some (length stack) })
    else (some (start tag), record { stack = stack; drop_depth = none })

unfoldable pub drop_start : List MaskRule → Tag → Dropping → Option Event × Dropping
unfolding any_matches local_name
drop_start rules tag s = elim s.drop_depth [
  | some d ↦ (none, record s { stack = push s.stack (local_name tag.name) })
  | none ↦ enter rules tag (push s.stack (local_name tag.name))
]

-- The name of an empty tag is pushed and popped again.
unfoldable pub drop_empty : List MaskRule → Tag → Dropping → Option Event × Dropping
unfolding any_matches local_name
drop_empty rules tag s = (
  keep_unless (is_dropping s || any_matches rules (push s.stack (local_name tag.name))) (empty tag),
  s,
)

unfoldable pub drop_end : Bytes → Dropping → Option Event × Dropping
unfolding pop
drop_end name s = elim s.drop_depth [
  | some d ↦ (
    none,
    record {
      stack = pop s.stack;
      drop_depth = if nat_beq (length s.stack) d then none else some d;
    },
  )
  | none ↦ (some (end_tag name), record s { stack = pop s.stack })
]

unfoldable pub drop_event : List MaskRule → Event → Dropping → Option Event × Dropping
unfolding drop_start drop_empty drop_end
drop_event rules (start tag) s = drop_start rules tag s
drop_event rules (empty tag) s = drop_empty rules tag s
drop_event rules (end_tag name) s = drop_end name s
drop_event rules e s = (keep_unless (is_dropping s) e, s)

abbrev pub add : Option Event → List Event → List Event
add none written = written
add (some e) written = e ∷ written

unfoldable pub drop_from : List MaskRule → Stream → Dropping → Result Bytes (List Event)
unfolding drop_event
drop_from rules [] s = ok []
drop_from rules (err e ∷ rest) s = err e
drop_from rules (ok item ∷ rest) s = do
  others ← drop_from rules rest (drop_event rules item.event s).1
  ok (add (drop_event rules item.event s).0 others)

unfoldable pub drop_subtrees : Stream → List MaskRule → Result Bytes (List Event)
unfolding drop_from
drop_subtrees xml drop_paths = drop_from drop_paths xml (record { stack = []; drop_depth = none })

pub record AttrMaskRule : Type 0 where
  pub segments : List Bytes
  pub attr : Bytes

unfoldable pub new_attr_mask : Bytes → Bytes → AttrMaskRule
unfolding split_slash
new_attr_mask path attr = record { segments = split_slash path; attr = attr }

unfoldable pub should_drop_attr : List Bytes → Bytes → AttrMaskRule → Bool
unfolding same_path
should_drop_attr stack name rule = same_path stack rule.segments && rule.attr == name

-- `attr_masks.iter().any(…)`
unfoldable pub any_drops : List AttrMaskRule → List Bytes → Bytes → Bool
unfolding should_drop_attr
any_drops [] stack name = false
any_drops (rule ∷ rules) stack name = should_drop_attr stack name rule || any_drops rules stack name

unfoldable pub unmasked : List AttrMaskRule → List Bytes → List Attribute → List Attribute
unfolding any_drops from_utf8_lossy
unmasked rules stack [] = []
unmasked rules stack (a ∷ attrs) =
    let rest = unmasked rules stack attrs in
    if any_drops rules stack (from_utf8_lossy a.key) then rest else a ∷ rest

-- The variables of `apply_masks`.
pub record Masking : Type 0 where
  pub stack : List Bytes
  pub sentinel_written : Bool

module _ (refusal : Tag → Bytes) (text_masks : List MaskRule) (attr_masks : List AttrMaskRule) where
  unfoldable pub write_masked_start : Tag → List Bytes → Bool → Result Bytes Event
  unfolding each_attribute sort_by_key unmasked from_utf8_lossy
  write_masked_start tag stack is_empty = do
    attrs ← each_attribute (refusal tag) tag.attributes
    ok (opening is_empty (rebuilt tag (sort_by_key (unmasked attr_masks stack attrs))))

  -- Text or CDATA.
  unfoldable pub mask_content : Event → Masking → Option Event × Masking
  unfolding any_matches
  mask_content e s =
      if any_matches text_masks s.stack
      then (
        keep_unless s.sentinel_written (text mask_sentinel),
        record s { sentinel_written = true },
      )
      else (some e, s)

  unfoldable pub mask_event : Event → Masking → Result Bytes (Option Event × Masking)
  unfolding write_masked_start mask_content any_matches local_name pop
  mask_event (start tag) s = do
    let stack = push s.stack (local_name tag.name)
    written ← write_masked_start tag stack false
    ok (some written, record { stack = stack; sentinel_written = false })
  mask_event (empty tag) s = do
    written ← write_masked_start tag (push s.stack (local_name tag.name)) true
    ok (some written, record s { sentinel_written = false })
  mask_event (end_tag name) s =
      ok (some (end_tag name), record { stack = pop s.stack; sentinel_written = false })
  mask_event (text t) s = ok (mask_content (text t) s)
  mask_event (cdata t) s = ok (mask_content (cdata t) s)
  mask_event (general_ref r) s =
      ok (keep_unless (any_matches text_masks s.stack) (general_ref r), s)
  mask_event e s = ok (some e, s)

  unfoldable pub mask_from : Stream → Masking → Result Bytes (List Event)
  unfolding mask_event
  mask_from [] s = ok []
  mask_from (err e ∷ rest) s = err e
  mask_from (ok item ∷ rest) s = do
    step ← mask_event item.event s
    others ← mask_from rest step.1
    ok (add step.0 others)

  unfoldable pub apply_masks : Stream → Result Bytes (List Event)
  unfolding mask_from
  apply_masks xml = mask_from xml (record { stack = []; sentinel_written = false })
