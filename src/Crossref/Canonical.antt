-- ===== src/Crossref/Canonical.antt =====
-- The second pass of `canonicalize_prefixes`, `mask_only` and `mask_only_with_drops`
-- (crossref/src/normalize.rs).
use soap_server.Prelude.{
  Bytes, bytes, Bool, true, false, Option, none, some, List, [], ◌∷◌, ◌++◌, Map, lookup,
  split_at_byte, from_utf8_lossy, if◌then◌else◌, Result, ok, err, ◌>>=◌, str_eq,
}
use soap_server.Xml.{
  Attribute, Tag, Event, start, empty, end_tag, text, cdata, general_ref, other, Readers,
}
use soap_server.Crossref.Masks.{MaskRule, local_name, each_attribute}
use soap_server.Crossref.Order.{sort_by_key}
use soap_server.Crossref.Drop.{AttrMaskRule, drop_subtrees, apply_masks}
use soap_server.Crossref.Prefixes.{
  Resolution, bound, Seen, SeenStream, is_declaration, is_reserved, collect_used_uris, number_uris,
  resolved_canonical_prefix, write_attr_value,
}

abbrev pub Prefixes : Type 0
Prefixes = Map Bytes Bytes

abbrev with_prefix : Option Bytes → Bytes → Attribute → Attribute
with_prefix none local a = a
with_prefix (some prefix) local a = record { key = prefix ++ bytes ":" ++ local; value = a.value }

-- The prefix of the URI that a name is bound to.
unfoldable pub prefix_of : Resolution → Prefixes → Option Bytes
unfolding lookup from_utf8_lossy
prefix_of (bound ns) prefixes = lookup (from_utf8_lossy ns) prefixes
prefix_of _ prefixes = none

abbrev renamed : Option Bytes → Attribute → Option (Bytes × Bytes) → Attribute
renamed prefix a none = a
renamed prefix a (some (old, local)) = with_prefix prefix local a

-- An attribute under its new name; a declaration is left out.
unfoldable pub rename : (Bytes → Resolution) → Prefixes → Attribute → Option Attribute
unfolding is_declaration is_reserved split_at_byte prefix_of
rename resolve_attribute prefixes a =
    if is_declaration a.key
    then none
    else if is_reserved a.key
    then some a
    else some (renamed (prefix_of (resolve_attribute a.key) prefixes) a (split_at_byte 58 a.key))

abbrev pub add_renamed : Option Attribute → List Attribute → List Attribute
add_renamed none attrs = attrs
add_renamed (some b) attrs = b ∷ attrs

unfoldable pub rename_all : (Bytes → Resolution) → Prefixes → List Attribute → List Attribute
unfolding rename
rename_all resolve_attribute prefixes [] = []
rename_all resolve_attribute prefixes (a ∷ attrs) =
    add_renamed (rename resolve_attribute prefixes a) (rename_all resolve_attribute prefixes attrs)

unfoldable pub write_all : List Attribute → Bytes
unfolding write_attr_value
write_all [] = []
write_all (a ∷ attrs) =
    bytes " " ++ a.key ++ bytes "=\"" ++ write_attr_value a.value ++ bytes "\"" ++ write_all attrs

abbrev to_declaration : Bytes × Bytes → Attribute
to_declaration (uri, prefix) = record { key = prefix; value = uri }

unfoldable pub declarations_of : Prefixes → List Attribute
declarations_of [] = []
declarations_of (entry ∷ prefixes) = to_declaration entry ∷ declarations_of prefixes

unfoldable pub write_declared : List Attribute → Bytes
write_declared [] = []
write_declared (d ∷ decls) =
    bytes " xmlns:" ++ d.key ++ bytes "=\"" ++ d.value ++ bytes "\"" ++ write_declared decls

abbrev qualified : Bytes → Bytes → Bytes
qualified [] local = local
qualified (c ∷ prefix) local = (c ∷ prefix) ++ bytes ":" ++ local

-- The declarations of the root, sorted by prefix.
unfoldable pub root_declarations : Bool → Prefixes → Bytes
unfolding write_declared sort_by_key declarations_of
root_declarations is_root prefixes =
    if is_root then write_declared (sort_by_key (declarations_of prefixes)) else []

unfoldable pub emit_canon_start :
    Bytes → Seen → Tag → Bytes → Prefixes → Bool → Bool → Result Bytes Bytes
unfolding each_attribute root_declarations write_all sort_by_key rename_all local_name
emit_canon_start refusal seen tag prefix prefixes is_root is_empty = do
  attrs ← each_attribute refusal tag.attributes
  ok (
      bytes "<"
      ++ qualified prefix (local_name tag.name)
      ++ root_declarations is_root prefixes
      ++ write_all (sort_by_key (rename_all seen.resolve_attribute prefixes attrs))
      ++ (if is_empty then bytes "/>" else bytes ">"))

-- The variables of the second pass; the stack has its top in front.
pub record Emitting : Type 0 where
  pub first_element : Bool
  pub elem_stack : List (Bytes × Bytes)

module _ (refusal : Tag → Bytes) (prefixes : Prefixes) where
  abbrev pub tag_bytes : Seen → Tag → Bool → Emitting → Result Bytes (Bytes × Bytes)
  tag_bytes seen tag is_empty s = do
    prefix ← resolved_canonical_prefix seen.resolve prefixes
    out ← emit_canon_start (refusal tag) seen tag prefix prefixes s.first_element is_empty
    ok (out, prefix)

  unfoldable pub canon_start : Seen → Tag → Emitting → Result Bytes (Bytes × Emitting)
  unfolding resolved_canonical_prefix emit_canon_start local_name
  canon_start seen tag s = do
    step ← tag_bytes seen tag false s
    ok (
      step.0,
      record { first_element = false; elem_stack = (local_name tag.name, step.1) ∷ s.elem_stack },
    )

  unfoldable pub canon_empty : Seen → Tag → Emitting → Result Bytes (Bytes × Emitting)
  unfolding resolved_canonical_prefix emit_canon_start
  canon_empty seen tag s = do
    step ← tag_bytes seen tag true s
    ok (step.0, record s { first_element = false })

  unfoldable pub canon_end : Emitting → Result Bytes (Bytes × Emitting)
  canon_end s = elim s.elem_stack [
    | [] ↦ err (bytes "end tag without matching start")
    | top ∷ stack ↦
        ok (bytes "</" ++ qualified top.1 top.0 ++ bytes ">", record s { elem_stack = stack })
  ]

  unfoldable pub canon_event : Seen → Event → Emitting → Result Bytes (Bytes × Emitting)
  unfolding canon_start canon_empty canon_end
  canon_event seen (start tag) s = canon_start seen tag s
  canon_event seen (empty tag) s = canon_empty seen tag s
  canon_event seen (end_tag name) s = canon_end s
  canon_event seen (text t) s = ok (t, s)
  canon_event seen (cdata t) s = ok (bytes "<![CDATA[" ++ t ++ bytes "]]>", s)
  canon_event seen (general_ref r) s = ok (bytes "&" ++ r ++ bytes ";", s)
  canon_event seen other s = ok ([], s)

  unfoldable pub canon_from : SeenStream → Emitting → Result Bytes Bytes
  unfolding canon_event
  canon_from [] s = ok []
  canon_from (err e ∷ rest) s = err e
  canon_from (ok seen ∷ rest) s = do
    step ← canon_event seen seen.event s
    others ← canon_from rest step.1
    ok (step.0 ++ others)

abbrev pub at_root : Emitting
at_root = record { first_element = true; elem_stack = [] }

unfoldable pub canonicalize_prefixes : (Tag → Bytes) → SeenStream → Result Bytes Bytes
unfolding collect_used_uris number_uris canon_from
canonicalize_prefixes refusal xml = do
  uris ← collect_used_uris refusal xml []
  canon_from refusal (number_uris 0 uris) xml at_root

-- The passes run on bytes: `readers` opens them, `print` is quick-xml's `Writer`.
module _ (refusal : Tag → Bytes) (readers : Readers) (seen_in : Bytes → SeenStream)
    (print : List Event → Bytes) where
  unfoldable pub mask_only : Bytes → List MaskRule → List AttrMaskRule → Result Bytes Bytes
  unfolding apply_masks canonicalize_prefixes
  mask_only xml text_masks attr_masks = do
    masked ← apply_masks refusal text_masks attr_masks (readers.raw xml)
    canonicalize_prefixes refusal (seen_in (print masked))

  unfoldable pub mask_only_with_drops :
      Bytes → List MaskRule → List AttrMaskRule → List MaskRule → Result Bytes Bytes
  unfolding apply_masks drop_subtrees canonicalize_prefixes
  mask_only_with_drops xml text_masks attr_masks drop_paths = do
    dropped ← drop_subtrees (readers.raw xml) drop_paths
    masked ← apply_masks refusal text_masks attr_masks (readers.raw (print dropped))
    canonicalize_prefixes refusal (seen_in (print masked))
