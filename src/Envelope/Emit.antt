-- ===== src/Envelope/Emit.antt =====
-- How tags are written back, and the namespace bindings in scope (src/envelope.rs).
use soap_server.Prelude.{
  ℕ, zero, suc, Bytes, bytes, Option, none, some, List, [], ◌∷◌, ◌++◌, length, str_eq, ◌==◌,
  strip_prefix, utf8_or_empty, if◌then◌else◌, ok, ◌>>=◌,
}
use soap_server.Xml.{Attribute, accepted, Tag}
use soap_server.Fault.{Fallible, fail}

-- Prefixes, empty for the default namespace, with their URIs.
abbrev pub Bindings : Type 0
Bindings = List (Bytes × Bytes)

abbrev pub xmlns_colon : Bytes
xmlns_colon = bytes "xmlns:"

-- `str::trim_start_matches("xmlns:")`: each round takes six bytes off, so the length is fuel enough.
trim_fuel : ℕ → Bytes → Bytes
trim_fuel zero s = s
trim_fuel (suc f) s = elim (strip_prefix xmlns_colon s) [ none ↦ s | some r ↦ trim_fuel f r ]

unfoldable pub trim_xmlns : Bytes → Bytes
unfolding trim_fuel
trim_xmlns s = trim_fuel (length s) s

-- The prefix that an attribute declares, if it is a namespace declaration.
unfoldable pub declared_prefix : Bytes → Option Bytes
unfolding trim_xmlns
declared_prefix key = elim (strip_prefix xmlns_colon key) [
  | some r ↦ some (trim_xmlns key)
  | none ↦ if key == bytes "xmlns" then some [] else none
]

abbrev pub add_binding : Option Bytes → Bytes → Bindings → Bindings
add_binding none value rest = rest
add_binding (some prefix) value rest = (prefix, value) ∷ rest

-- The declarations among the attributes, in order.
unfoldable pub declarations : List Attribute → Bindings
declarations [] = []
declarations (attr ∷ rest) =
    add_binding (declared_prefix (utf8_or_empty attr.key)) (utf8_or_empty attr.value)
      (declarations rest)

-- `collect_ns_from_attrs`: the new bindings in front of the inherited ones.
unfoldable pub collect_ns_from_attrs : Tag → Bindings → Bindings
collect_ns_from_attrs tag bindings = declarations (accepted tag.attributes) ++ bindings

-- `let attr = attr.map_err(…)?` over the attributes of a tag.
unfoldable pub all_attributes : List (Option Attribute) → Fallible (List Attribute)
all_attributes [] = ok []
all_attributes (none ∷ rest) = fail (bytes "Invalid attribute")
all_attributes (some attr ∷ rest) = do others ← all_attributes rest; ok (attr ∷ others)

unfoldable pub write_pair : Bytes → Bytes → Bytes
write_pair key value = bytes " " ++ key ++ bytes "=\"" ++ value ++ bytes "\""

unfoldable pub write_attributes : List Attribute → Bytes
write_attributes [] = []
write_attributes (attr ∷ rest) = write_pair attr.key attr.value ++ write_attributes rest

-- A tag below the root of a fragment, closed by `close`.
unfoldable pub write_tag : Tag → Bytes → Fallible Bytes
write_tag tag close = do
  attrs ← all_attributes tag.attributes
  ok (bytes "<" ++ tag.name ++ write_attributes attrs ++ close)

unfoldable pub write_end : Bytes → Bytes
write_end name = bytes "</" ++ name ++ bytes ">"

-- An entity reference, written back as it stood.
unfoldable pub write_ref : Bytes → Bytes
write_ref name = bytes "&" ++ name ++ bytes ";"

-- The attribute name that declares a prefix.
unfoldable pub xmlns_key : Bytes → Bytes
xmlns_key [] = bytes "xmlns"
xmlns_key (c ∷ prefix) = xmlns_colon ++ c ∷ prefix
