-- ===== src/Crossref/Prefixes.antt =====
-- `canonicalize_prefixes` (crossref/src/normalize.rs): the namespaces of a document under the
-- prefixes n0, n1 and so on.
use soap_server.Prelude.{
  ℕ, zero, suc, ◌+◌, ◌/◌, ◌%◌, Bytes, bytes, Bool, true, false, ◌||◌, Option, none, some, List, [],
  ◌∷◌, ◌++◌, nat_beq, ltb, Map, lookup, str_eq, ◌==◌, strip_prefix, from_utf8_lossy, if◌then◌else◌,
  Result, ok, err, ◌>>=◌,
}
use soap_server.Xml.{Attribute, Tag, Event, start, empty}
use soap_server.Crossref.Order.{bytes_le}

-- quick-xml's `ResolveResult`.
pub data Resolution : Type 0 where
  bound unknown : Bytes → Resolution
  unbound : Resolution

-- An event as `read_resolved_event_into` yields it, with the `resolve_attribute` of the resolver
-- as it stands then.
pub record Seen : Type 0 where
  pub resolve : Resolution
  pub event : Event
  pub resolve_attribute : Bytes → Resolution

abbrev pub SeenStream : Type 0
SeenStream = List (Result Bytes Seen)

abbrev pub xml_ns : Bytes
xml_ns = bytes "http://www.w3.org/XML/1998/namespace"

abbrev starts_with : Bytes → Bytes → Bool
starts_with p s = elim (strip_prefix p s) [ none ↦ false | some r ↦ true ]

unfoldable pub is_declaration : Bytes → Bool
unfolding strip_prefix
is_declaration key = key == bytes "xmlns" || starts_with (bytes "xmlns:") key

unfoldable pub is_reserved : Bytes → Bool
unfolding strip_prefix
is_reserved key = starts_with (bytes "xml:") key

-- `BTreeSet::insert`
unfoldable pub insert_uri : Bytes → List Bytes → List Bytes
unfolding bytes_le
insert_uri u [] = u ∷ []
insert_uri u (v ∷ uris) =
    let rest = insert_uri u uris in
    if u == v then v ∷ uris else if bytes_le u v then u ∷ v ∷ uris else v ∷ rest

unfoldable pub foreign_uri : Resolution → Option Bytes
unfolding from_utf8_lossy
foreign_uri (bound ns) = if from_utf8_lossy ns == xml_ns then none else some (from_utf8_lossy ns)
foreign_uri _ = none

abbrev pub insert_if : Option Bytes → List Bytes → List Bytes
insert_if none uris = uris
insert_if (some u) uris = insert_uri u uris

-- The URI that an attribute adds.
unfoldable pub attr_uri : (Bytes → Resolution) → Bytes → Option Bytes
unfolding is_declaration is_reserved foreign_uri
attr_uri resolve_attribute key =
    if is_declaration key || is_reserved key then none else foreign_uri (resolve_attribute key)

unfoldable pub collect_attr_uris :
    Bytes → (Bytes → Resolution) → List (Option Attribute) → List Bytes → Result Bytes (List Bytes)
unfolding insert_uri attr_uri
collect_attr_uris refusal resolve_attribute [] uris = ok uris
collect_attr_uris refusal resolve_attribute (none ∷ rest) uris = err refusal
collect_attr_uris refusal resolve_attribute (some a ∷ rest) uris =
    collect_attr_uris refusal resolve_attribute rest
      (insert_if (attr_uri resolve_attribute a.key) uris)

module _ (refusal : Tag → Bytes) where
  -- A start or an empty tag of the first pass.
  unfoldable pub collect_tag :
      Resolution → (Bytes → Resolution) → Tag → List Bytes → Result Bytes (List Bytes)
  unfolding collect_attr_uris foreign_uri insert_uri
  collect_tag (unknown p) resolve_attribute tag uris = ok uris
  collect_tag r resolve_attribute tag uris =
      collect_attr_uris (refusal tag) resolve_attribute tag.attributes
        (insert_if (foreign_uri r) uris)

  unfoldable pub collect_seen : Seen → List Bytes → Result Bytes (List Bytes)
  unfolding collect_tag
  collect_seen seen uris = elim seen.event [
    | start tag ↦ collect_tag seen.resolve seen.resolve_attribute tag uris
    | empty tag ↦ collect_tag seen.resolve seen.resolve_attribute tag uris
    | _ ↦ ok uris
  ]

  unfoldable pub collect_used_uris : SeenStream → List Bytes → Result Bytes (List Bytes)
  unfolding collect_seen
  collect_used_uris [] uris = ok uris
  collect_used_uris (err e ∷ rest) uris = err e
  collect_used_uris (ok seen ∷ rest) uris = do
    uris' ← collect_seen seen uris
    collect_used_uris rest uris'

-- A number in decimal. The number is fuel enough: each round divides it by ten.
digits_from : ℕ → ℕ → Bytes → Bytes
digits_from zero n acc = (48 + n) ∷ acc
digits_from (suc f) n acc =
    let rest = digits_from f (n / 10) ((48 + n % 10) ∷ acc) in
    if ltb n 10 then (48 + n) ∷ acc else rest

unfoldable pub canonical_prefix : ℕ → Bytes
unfolding digits_from
canonical_prefix i = bytes "n" ++ digits_from i i []

-- `used_uris.iter().enumerate()` into the map from URIs to prefixes.
unfoldable pub number_uris : ℕ → List Bytes → Map Bytes Bytes
unfolding canonical_prefix
number_uris i [] = []
number_uris i (uri ∷ uris) = (uri, canonical_prefix i) ∷ number_uris (suc i) uris

unfoldable pub resolved_canonical_prefix : Resolution → Map Bytes Bytes → Result Bytes Bytes
unfolding lookup from_utf8_lossy
resolved_canonical_prefix (bound ns) prefixes = elim (lookup (from_utf8_lossy ns) prefixes) [
  | some prefix ↦ ok prefix
  | none ↦ err (bytes "unmapped namespace URI: " ++ from_utf8_lossy ns)
]
resolved_canonical_prefix (unknown p) prefixes =
    err (bytes "unknown namespace prefix: " ++ from_utf8_lossy p)
resolved_canonical_prefix unbound prefixes = ok []

abbrev escaped_byte : ℕ → Bytes
escaped_byte c =
    if nat_beq c b'"'
    then bytes "&quot;"
    else if nat_beq c b'<'
    then bytes "&lt;"
    else if nat_beq c b'&'
    then bytes "&amp;"
    else c ∷ []

unfoldable pub write_attr_value : Bytes → Bytes
write_attr_value [] = []
write_attr_value (c ∷ value) = escaped_byte c ++ write_attr_value value
