-- ===== src/Envelope/Body.antt =====
-- `extract_body_first_child`, `skip_to_end` and `skip_element` of src/envelope.rs.
use soap_server.Prelude.{
  ℕ, zero, suc, Bytes, bytes, Option, none, some, List, [], ◌∷◌, ◌++◌, str_eq, contains, insert_set,
  utf8_or_empty, if◌then◌else◌, ok, err, ◌>>=◌,
}
use soap_server.Xml.{Attribute, Tag, start, empty, end_tag, text, general_ref, Stream}
use soap_server.Fault.{Fallible, fail}
use soap_server.Envelope.Emit.{
  Bindings, declared_prefix, all_attributes, write_pair, write_attributes, write_tag, write_end,
  write_ref, xmlns_key,
}

abbrev add_prefix : Option Bytes → List Bytes → List Bytes
add_prefix none own = own
add_prefix (some prefix) own = insert_set prefix own

-- The prefixes that the tag itself declares.
unfoldable pub own_prefixes : List Attribute → List Bytes
own_prefixes [] = []
own_prefixes (attr ∷ rest) =
    add_prefix (declared_prefix (utf8_or_empty attr.key)) (own_prefixes rest)

unfoldable pub inherited : List Bytes → Bindings → Bytes
inherited own [] = []
inherited own ((prefix, uri) ∷ rest) =
    (if contains own prefix then [] else write_pair (xmlns_key prefix) uri) ++ inherited own rest

unfoldable pub write_body_root : Bindings → Tag → Bytes → Fallible Bytes
write_body_root ns tag close = do
  attrs ← all_attributes tag.attributes
  ok (bytes "<" ++ tag.name ++ inherited (own_prefixes attrs) ns ++ write_attributes attrs ++ close)

-- The inner loop: the rest of the child, `suc depth` elements being open.
unfoldable pub copy_from : Stream → ℕ → Bytes → Fallible (Bytes × Stream)
copy_from [] depth buf = fail (bytes "Unexpected EOF in Body child")
copy_from (err e ∷ rest) depth buf = fail (bytes "XML parse error: " ++ e)
copy_from (ok item ∷ rest) depth buf = elim item.event [
  | start tag ↦ (do opened ← write_tag tag (bytes ">"); copy_from rest (suc depth) (buf ++ opened))
  | empty tag ↦ (do written ← write_tag tag (bytes "/>"); copy_from rest depth (buf ++ written))
  | end_tag name ↦ elim depth [
    | zero ↦ ok (buf ++ write_end name, rest)
    | suc d ↦ copy_from rest d (buf ++ write_end name)
  ]
  | text t ↦ copy_from rest depth (buf ++ t)
  | general_ref name ↦ copy_from rest depth (buf ++ write_ref name)
  | _ ↦ copy_from rest depth buf
]

-- The outer loop: the first element inside `Body`.
unfoldable pub extract_body_first_child : Bindings → Stream → Fallible (Bytes × Stream)
unfolding copy_from
extract_body_first_child ns [] = fail (bytes "Missing Body child element")
extract_body_first_child ns (err e ∷ rest) = fail (bytes "XML parse error: " ++ e)
extract_body_first_child ns (ok item ∷ rest) = elim item.event [
  | start tag ↦ (do root ← write_body_root ns tag (bytes ">"); copy_from rest 0 root)
  | empty tag ↦ (do root ← write_body_root ns tag (bytes "/>"); ok (root, rest))
  | end_tag name ↦ fail (bytes "Missing Body")
  | text t ↦ extract_body_first_child ns rest
  | general_ref name ↦ extract_body_first_child ns rest
  | _ ↦ extract_body_first_child ns rest
]

-- The loop of `skip_to_end`, `suc depth` elements being open.
unfoldable pub skip_from : Stream → ℕ → Fallible Stream
skip_from [] depth = fail (bytes "Unexpected EOF")
skip_from (err e ∷ rest) depth = fail (bytes "XML parse error: " ++ e)
skip_from (ok item ∷ rest) depth = elim item.event [
  | start tag ↦ skip_from rest (suc depth)
  | end_tag name ↦ elim depth [ zero ↦ ok rest | suc d ↦ skip_from rest d ]
  | empty tag ↦ skip_from rest depth
  | text t ↦ skip_from rest depth
  | general_ref name ↦ skip_from rest depth
  | _ ↦ skip_from rest depth
]

unfoldable pub skip_to_end : Stream → Fallible Stream
unfolding skip_from
skip_to_end events = skip_from events 0
