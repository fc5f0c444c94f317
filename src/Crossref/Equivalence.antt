-- ===== src/Crossref/Equivalence.antt =====
-- Documents that differ in their prefixes (crossref/src/normalize.rs): the relation, and the first
-- pass of `canonicalize_prefixes` on two such documents.
use soap_server.Prelude.{
  ◌≡◌, refl, Bytes, true, none, some, List, [], ◌∷◌, map, str_eq, split_at_byte, ok, err, >>=_congr,
}
use soap_server.Xml.{Attribute, Tag, Event, start, empty, end_tag, text, cdata, general_ref}
use soap_server.Crossref.Masks.{local_name}
use soap_server.Crossref.Prefixes.{
  Resolution, bound, unknown, unbound, Seen, SeenStream, is_declaration, attr_uri,
  collect_attr_uris, collect_tag, collect_seen, collect_used_uris,
}

abbrev pub Resolver : Type 0
Resolver = Bytes → Resolution

-- Attributes with the same namespaces, local names and values.
pub data SameAttrs (f g : Resolver) : List Attribute → List Attribute → Type 0 where
  nil : SameAttrs f g [] []
  declared_left :
      (a : Attribute) {xs ys : List Attribute}
      → is_declaration a.key ≡ true
      → SameAttrs f g xs ys
      → SameAttrs f g (a ∷ xs) ys
  declared_right :
      (a : Attribute) {xs ys : List Attribute}
      → is_declaration a.key ≡ true
      → SameAttrs f g xs ys
      → SameAttrs f g xs (a ∷ ys)
  alike :
      (a : Attribute) {xs ys : List Attribute}
      → f a.key ≡ g a.key
      → SameAttrs f g xs ys
      → SameAttrs f g (a ∷ xs) (a ∷ ys)
  renamed :
      (a b : Attribute) (uri p q local : Bytes) {xs ys : List Attribute}
      → attr_uri f a.key ≡ some uri
      → attr_uri g b.key ≡ some uri
      → split_at_byte 58 a.key ≡ some (p, local)
      → split_at_byte 58 b.key ≡ some (q, local)
      → a.value ≡ b.value
      → SameAttrs f g xs ys
      → SameAttrs f g (a ∷ xs) (b ∷ ys)

-- Tags with the same local name, and the same attributes in this sense.
pub data SameTags (f g : Resolver) : Tag → Tag → Type 0 where
  tags :
      (name name' local local' : Bytes) {xs ys : List Attribute}
      → local_name name ≡ local_name name'
      → SameAttrs f g xs ys
      → SameTags f g
          (record { name = name; local_name = local; attributes = map some xs })
          (record { name = name'; local_name = local'; attributes = map some ys })

abbrev pub seen : Resolution → Event → Resolver → Seen
seen r e f = record { resolve = r; event = e; resolve_attribute = f }

-- Documents that differ in their prefixes and declarations only.
pub data Equivalent : SeenStream → SeenStream → Type 0 where
  done : Equivalent [] []
  failed : (e : Bytes) (s t : SeenStream) → Equivalent (err e ∷ s) (err e ∷ t)
  starts :
      (r : Resolution) (f g : Resolver) {t u : Tag} {xs ys : SeenStream}
      → SameTags f g t u
      → Equivalent xs ys
      → Equivalent (ok (seen r (start t) f) ∷ xs) (ok (seen r (start u) g) ∷ ys)
  empties :
      (r : Resolution) (f g : Resolver) {t u : Tag} {xs ys : SeenStream}
      → SameTags f g t u
      → Equivalent xs ys
      → Equivalent (ok (seen r (empty t) f) ∷ xs) (ok (seen r (empty u) g) ∷ ys)
  ends :
      (r q : Resolution) (f g : Resolver) (n m : Bytes) {xs ys : SeenStream}
      → Equivalent xs ys
      → Equivalent (ok (seen r (end_tag n) f) ∷ xs) (ok (seen q (end_tag m) g) ∷ ys)
  texts :
      (r q : Resolution) (f g : Resolver) (t : Bytes) {xs ys : SeenStream}
      → Equivalent xs ys
      → Equivalent (ok (seen r (text t) f) ∷ xs) (ok (seen q (text t) g) ∷ ys)
  sections :
      (r q : Resolution) (f g : Resolver) (t : Bytes) {xs ys : SeenStream}
      → Equivalent xs ys
      → Equivalent (ok (seen r (cdata t) f) ∷ xs) (ok (seen q (cdata t) g) ∷ ys)
  references :
      (r q : Resolution) (f g : Resolver) (t : Bytes) {xs ys : SeenStream}
      → Equivalent xs ys
      → Equivalent (ok (seen r (general_ref t) f) ∷ xs) (ok (seen q (general_ref t) g) ∷ ys)

attr_uri-declaration :
    (f : Resolver) (key : Bytes) → is_declaration key ≡ true → attr_uri f key ≡ none
unfolding attr_uri
attr_uri-declaration f key h = rw h

attr_uri_congr : (f g : Resolver) (key : Bytes) → f key ≡ g key → attr_uri f key ≡ attr_uri g key
unfolding attr_uri
attr_uri_congr f g key h = rw h

module _ (refusal refusal' : Bytes) {f g : Resolver} where
  collect_attr_uris-SameAttrs :
      {xs ys : List Attribute} (uris : List Bytes)
      → SameAttrs f g xs ys
      → collect_attr_uris refusal f (map some xs) uris
        ≡ collect_attr_uris refusal' g (map some ys) uris
  unfolding collect_attr_uris
  collect_attr_uris-SameAttrs uris nil = refl
  collect_attr_uris-SameAttrs uris (declared_left a d s) =
      rw (collect_attr_uris, attr_uri-declaration f a.key d) (collect_attr_uris-SameAttrs uris s)
  collect_attr_uris-SameAttrs uris (declared_right a d s) =
      rw (collect_attr_uris, attr_uri-declaration g a.key d) (collect_attr_uris-SameAttrs uris s)
  collect_attr_uris-SameAttrs uris (alike a e s) =
      rw (collect_attr_uris, attr_uri_congr f g a.key e) (collect_attr_uris-SameAttrs _ s)
  collect_attr_uris-SameAttrs uris (renamed a b uri p q local ua ub sa sb v s) =
      rw (collect_attr_uris, ua, ub) (collect_attr_uris-SameAttrs _ s)

module _ (refusal : Tag → Bytes) where
  collect_tag-SameTags :
      (r : Resolution) {f g : Resolver} {t u : Tag} (uris : List Bytes)
      → SameTags f g t u
      → collect_tag refusal r f t uris ≡ collect_tag refusal r g u uris
  unfolding collect_tag
  collect_tag-SameTags (bound ns) uris (tags _ _ _ _ l s) = collect_attr_uris-SameAttrs _ _ _ s
  collect_tag-SameTags (unknown p) uris (tags _ _ _ _ l s) = refl
  collect_tag-SameTags unbound uris (tags _ _ _ _ l s) = collect_attr_uris-SameAttrs _ _ _ s

  pub collect_used_uris-Equivalent :
      {xs ys : SeenStream} (uris : List Bytes)
      → Equivalent xs ys
      → collect_used_uris refusal xs uris ≡ collect_used_uris refusal ys uris
  unfolding collect_used_uris collect_seen
  collect_used_uris-Equivalent uris done = refl
  collect_used_uris-Equivalent uris (failed e s t) = refl
  collect_used_uris-Equivalent uris (starts r f g {t} {u} {xs} {ys} same s) =
      rw (collect_tag-SameTags r uris same) (
        >>=_congr (collect_tag refusal r g u uris) _ _
          (λ uris'. collect_used_uris-Equivalent uris' s))
  collect_used_uris-Equivalent uris (empties r f g {t} {u} {xs} {ys} same s) =
      rw (collect_tag-SameTags r uris same) (
        >>=_congr (collect_tag refusal r g u uris) _ _
          (λ uris'. collect_used_uris-Equivalent uris' s))
  collect_used_uris-Equivalent uris (ends r q f g n m s) = collect_used_uris-Equivalent uris s
  collect_used_uris-Equivalent uris (texts r q f g t s) = collect_used_uris-Equivalent uris s
  collect_used_uris-Equivalent uris (sections r q f g t s) = collect_used_uris-Equivalent uris s
  collect_used_uris-Equivalent uris (references r q f g t s) = collect_used_uris-Equivalent uris s
