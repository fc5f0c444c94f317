-- ===== src/Envelope/Header.antt =====
-- `collect_header_children` of src/envelope.rs: each child of `Header` as self-contained XML. The
-- pair that a loop returns has the events that are still unread.
use soap_server.Prelude.{
  ℕ, zero, suc, Bytes, bytes, List, [], ◌∷◌, ◌++◌, str_eq, contains, insert_set, utf8_or_empty,
  if◌then◌else◌, ok, err, ◌>>=◌,
}
use soap_server.Xml.{Attribute, accepted, Tag, start, empty, end_tag, text, general_ref, Stream}
use soap_server.Fault.{Fallible, fail}
use soap_server.Envelope.Emit.{
  Bindings, write_pair, write_attributes, write_tag, write_end, write_ref, xmlns_key,
}

-- The keys of the tag's own attributes.
unfoldable pub own_attr_keys : List Attribute → List Bytes
own_attr_keys [] = []
own_attr_keys (attr ∷ rest) = insert_set (utf8_or_empty attr.key) (own_attr_keys rest)

unfoldable pub inherited : List Bytes → Bindings → Bytes
inherited own [] = []
inherited own ((prefix, uri) ∷ rest) =
    (if contains own (xmlns_key prefix) then [] else write_pair (xmlns_key prefix) uri)
    ++ inherited own rest

-- The root tag of a fragment, with the inherited declarations.
unfoldable pub write_header_root : Bindings → Tag → Bytes → Bytes
write_header_root ns tag close =
    let own = accepted tag.attributes in
    bytes "<" ++ tag.name ++ inherited (own_attr_keys own) ns ++ write_attributes own ++ close

-- The loop: `depth` counts the open elements below `Header`.
unfoldable pub collect_from :
    Bindings → Stream → ℕ → Bytes → List Bytes → Fallible (List Bytes × Stream)
collect_from ns [] depth buf children = fail (bytes "Unexpected EOF in Header")
collect_from ns (err e ∷ rest) depth buf children = fail (bytes "XML parse error: " ++ e)
collect_from ns (ok item ∷ rest) depth buf children = elim item.event [
  | start tag ↦ elim depth [
    | zero ↦ collect_from ns rest 1 (write_header_root ns tag (bytes ">")) children
    | suc d ↦ (do
      opened ← write_tag tag (bytes ">")
      collect_from ns rest (suc (suc d)) (buf ++ opened) children)
  ]
  | empty tag ↦ elim depth [
    | zero ↦ collect_from ns rest 0 [] (children ++ write_header_root ns tag (bytes "/>") ∷ [])
    | suc d ↦ (do
      written ← write_tag tag (bytes "/>")
      collect_from ns rest (suc d) (buf ++ written) children)
  ]
  | end_tag name ↦ elim depth [
    | zero ↦ ok (children, rest)
    | suc d ↦ elim d [
      | zero ↦ collect_from ns rest 0 [] (children ++ (buf ++ write_end name) ∷ [])
      | suc d' ↦ collect_from ns rest (suc d') (buf ++ write_end name) children
    ]
  ]
  | text t ↦ elim depth [
    | zero ↦ collect_from ns rest 0 buf children
    | suc d ↦ collect_from ns rest (suc d) (buf ++ t) children
  ]
  | general_ref name ↦ elim depth [
    | zero ↦ collect_from ns rest 0 buf children
    | suc d ↦ collect_from ns rest (suc d) (buf ++ write_ref name) children
  ]
  | _ ↦ collect_from ns rest depth buf children
]

unfoldable pub collect_header_children : Bindings → Stream → Fallible (List Bytes × Stream)
unfolding collect_from
collect_header_children ns events = collect_from ns events 0 [] []
