-- ===== src/Crossref/Renaming.antt =====
-- How `canonicalize_prefixes` writes tags that differ in their prefixes
-- (crossref/src/normalize.rs).
use soap_server.Prelude.{
  ◌≡◌, ◌≢◌, refl, ap, ap₂, sym, ◌∙◌, Bytes, Bool, true, false, none, some, List, contains, str_eq,
  split_at_byte, ok, ◌>>=◌, >>=_congr,
}
use soap_server.Xml.{Attribute, Tag, Event, start, empty}
use soap_server.Crossref.Masks.{each_attribute-map-some, local_name}
use soap_server.Crossref.Prefixes.{
  Resolution, bound, unknown, unbound, is_declaration, attr_uri, number_uris,
  resolved_canonical_prefix,
}
use soap_server.Crossref.Canonical.{
  Prefixes, rename, add_renamed, rename_all, emit_canon_start, Emitting, tag_bytes, canon_start,
  canon_empty,
}
use soap_server.Crossref.Equivalence.{Resolver, SameAttrs, seen}
use soap_server.Crossref.Covered.{Collected, number_uris-lookup, rename-attr_uri, plain_tag}

rename-declaration :
    (f : Resolver) (prefixes : Prefixes) (a : Attribute)
    → is_declaration a.key ≡ true
    → rename f prefixes a ≡ none
unfolding rename
rename-declaration f prefixes a h = rw h

rename_congr :
    (f g : Resolver) (prefixes : Prefixes) (a : Attribute)
    → f a.key ≡ g a.key
    → rename f prefixes a ≡ rename g prefixes a
unfolding rename
rename_congr f g prefixes a h = rw h

module _ (uris : List Bytes) (f g : Resolver) where
  -- Both attributes get the same name and value.
  rename_same :
      (a b : Attribute) (uri p q local : Bytes)
      → contains uris uri ≡ true
      → attr_uri f a.key ≡ some uri
      → attr_uri g b.key ≡ some uri
      → split_at_byte 58 a.key ≡ some (p, local)
      → split_at_byte 58 b.key ≡ some (q, local)
      → a.value ≡ b.value
      → rename f (number_uris 0 uris) a ≡ rename g (number_uris 0 uris) b
  rename_same a b uri p q local known ua ub sa sb v =
      let (prefix, l) = number_uris-lookup 0 uris uri known in
      rename-attr_uri f (number_uris 0 uris) a uri p local prefix ua sa l
      ∙ rw v (sym (rename-attr_uri g (number_uris 0 uris) b uri q local prefix ub sb l))

  rename_all-SameAttrs :
      {xs ys : List Attribute}
      → Collected uris f xs
      → SameAttrs f g xs ys
      → rename_all f (number_uris 0 uris) xs ≡ rename_all g (number_uris 0 uris) ys
  unfolding rename_all
  rename_all-SameAttrs c SameAttrs.nil = refl
  rename_all-SameAttrs c (SameAttrs.declared_left a d s) =
      ap₂ add_renamed (rename-declaration f (number_uris 0 uris) a d) (rename_all-SameAttrs c.1 s)
  rename_all-SameAttrs c (SameAttrs.declared_right a d s) =
      rename_all-SameAttrs c s
      ∙ sym (ap₂ add_renamed (rename-declaration g (number_uris 0 uris) a d) refl)
  rename_all-SameAttrs c (SameAttrs.alike a e s) =
      ap₂ add_renamed (rename_congr f g (number_uris 0 uris) a e) (rename_all-SameAttrs c.1 s)
  rename_all-SameAttrs c (SameAttrs.renamed a b uri p q local ua ub sa sb v s) =
      ap₂ add_renamed (rename_same a b uri p q local (c.0 uri ua) ua ub sa sb v)
        (rename_all-SameAttrs c.1 s)

module _ (refusal : Tag → Bytes) (uris : List Bytes) where
  emit_canon_start-SameTags :
      (r q : Resolution) (e e' : Event) (f g : Resolver) (name name' local local' : Bytes)
      {xs ys : List Attribute} (prefix refusal refusal' : Bytes) (is_root is_empty : Bool)
      → local_name name ≡ local_name name'
      → Collected uris f xs
      → SameAttrs f g xs ys
      → emit_canon_start refusal
          (seen r e f)
          (plain_tag name local xs)
          prefix
          (number_uris 0 uris)
          is_root
          is_empty
        ≡ emit_canon_start refusal'
            (seen q e' g)
            (plain_tag name' local' ys)
            prefix
            (number_uris 0 uris)
            is_root
            is_empty
  unfolding emit_canon_start
  emit_canon_start-SameTags r q e e' f g name name' local local' {xs} {ys} prefix refusal refusal'
        is_root is_empty l c s =
      rw (
        each_attribute-map-some refusal xs,
        each_attribute-map-some refusal' ys,
        l,
        rename_all-SameAttrs uris f g c s,
      )

  tag_bytes-Collected :
      (r : Resolution) (e e' : Event) (f g : Resolver) (name name' local local' : Bytes)
      {xs ys : List Attribute} (is_empty : Bool) (s : Emitting)
      → local_name name ≡ local_name name'
      → Collected uris f xs
      → SameAttrs f g xs ys
      → tag_bytes refusal (number_uris 0 uris) (seen r e f) (plain_tag name local xs) is_empty s
        ≡ tag_bytes refusal
            (number_uris 0 uris)
            (seen r e' g)
            (plain_tag name' local' ys)
            is_empty
            s
  tag_bytes-Collected r e e' f g name name' local local' {xs} {ys} is_empty s l c q =
      >>=_congr (resolved_canonical_prefix r (number_uris 0 uris)) _ _ (λ prefix.
        ap (λ m. m >>= λ out. ok (out, prefix))
          (emit_canon_start-SameTags r r e e' f g name name' local local' prefix
            (refusal (plain_tag name local xs)) (refusal (plain_tag name' local' ys))
            s.first_element is_empty l c q))

  -- A tag is written alike, unless its own name is of an unknown namespace: then neither is.
  tag_bytes-SameTags :
      (r : Resolution) (e e' : Event) (f g : Resolver) (name name' local local' : Bytes)
      {xs ys : List Attribute} (is_empty : Bool) (s : Emitting)
      → local_name name ≡ local_name name'
      → (((p : Bytes) → r ≢ unknown p) → Collected uris f xs)
      → SameAttrs f g xs ys
      → tag_bytes refusal (number_uris 0 uris) (seen r e f) (plain_tag name local xs) is_empty s
        ≡ tag_bytes refusal
            (number_uris 0 uris)
            (seen r e' g)
            (plain_tag name' local' ys)
            is_empty
            s
  unfolding resolved_canonical_prefix
  tag_bytes-SameTags (unknown p) e e' f g name name' local local' is_empty s l c q = refl
  tag_bytes-SameTags (bound ns) e e' f g name name' local local' is_empty s l c q =
      tag_bytes-Collected (bound ns) e e' f g name name' local local' is_empty s l (c (λ p h. cc)) q
  tag_bytes-SameTags unbound e e' f g name name' local local' is_empty s l c q =
      tag_bytes-Collected unbound e e' f g name name' local local' is_empty s l (c (λ p h. cc)) q

  pub canon_start-SameTags :
      (r : Resolution) (f g : Resolver) (name name' local local' : Bytes) {xs ys : List Attribute}
      (s : Emitting)
      → local_name name ≡ local_name name'
      → (((p : Bytes) → r ≢ unknown p) → Collected uris f xs)
      → SameAttrs f g xs ys
      → canon_start refusal
          (number_uris 0 uris)
          (seen r (start (plain_tag name local xs)) f)
          (plain_tag name local xs)
          s
        ≡ canon_start refusal
            (number_uris 0 uris)
            (seen r (start (plain_tag name' local' ys)) g)
            (plain_tag name' local' ys)
            s
  unfolding canon_start
  canon_start-SameTags r f g name name' local local' {xs} {ys} s l c q = rw (
    tag_bytes-SameTags r (start (plain_tag name local xs)) (start (plain_tag name' local' ys)) f g
        name name' local local' false s l c q,
    l,
  )

  pub canon_empty-SameTags :
      (r : Resolution) (f g : Resolver) (name name' local local' : Bytes) {xs ys : List Attribute}
      (s : Emitting)
      → local_name name ≡ local_name name'
      → (((p : Bytes) → r ≢ unknown p) → Collected uris f xs)
      → SameAttrs f g xs ys
      → canon_empty refusal
          (number_uris 0 uris)
          (seen r (empty (plain_tag name local xs)) f)
          (plain_tag name local xs)
          s
        ≡ canon_empty refusal
            (number_uris 0 uris)
            (seen r (empty (plain_tag name' local' ys)) g)
            (plain_tag name' local' ys)
            s
  unfolding canon_empty
  canon_empty-SameTags r f g name name' local local' {xs} {ys} s l c q = rw (
      tag_bytes-SameTags r (empty (plain_tag name local xs)) (empty (plain_tag name' local' ys)) f g
        name name' local local' true s l c q)
