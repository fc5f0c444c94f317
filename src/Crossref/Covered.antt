-- ===== src/Crossref/Covered.antt =====
-- Every namespace that the second pass of `canonicalize_prefixes` asks for has a prefix
-- (crossref/src/normalize.rs).
use soap_server.Prelude.{
  ℕ, suc, ◌≡◌, refl, arith, Bytes, bytes, true, false, Option, none, some, List, [], ◌∷◌, ◌++◌, map,
  lookup, str_beq, str_beq_iff, str_eq, ◌==◌, contains, split_at_byte, if◌then◌else◌, ok, err,
  ok-eq, ◌>>=◌, ◌≢◌, >>=-eq-ok, Bool-cases, inl, inr,
}
use soap_server.Xml.{Attribute, Tag, Event, start, empty, end_tag, text, cdata, general_ref, other}
use soap_server.Crossref.Prefixes.{
  Resolution, bound, unknown, unbound, SeenStream, is_declaration, is_reserved, insert_uri,
  insert_if, foreign_uri, attr_uri, collect_attr_uris, collect_tag, collect_seen, collect_used_uris,
  number_uris, canonical_prefix,
}
use soap_server.Crossref.Canonical.{Prefixes, prefix_of, rename}

none_ne {ℓ} : {A : Type ℓ} {a : A} → ◌≡◌ {A = Option A} none (some a) → ⊥
none_ne h = cc

-- One set within another.
abbrev pub Within : List Bytes → List Bytes → Type 0
Within uris uris' = (u : Bytes) → contains uris u ≡ true → contains uris' u ≡ true

contains-insert_uri :
    (u v : Bytes) (uris : List Bytes)
    → contains (insert_uri u uris) v ≡ (if u == v then true else contains uris v)
unfolding contains insert_uri
contains-insert_uri u v [] = ground (arith, str_beq_iff u v)
contains-insert_uri u v (w ∷ uris) =
    let ih = contains-insert_uri u v uris in
    ground (arith, str_beq_iff u w, str_beq_iff u v, str_beq_iff w v)

insert_if-Within : (o : Option Bytes) (uris : List Bytes) → Within uris (insert_if o uris)
insert_if-Within none uris u h = h
insert_if-Within (some v) uris u h = let e = contains-insert_uri v u uris in ground arith

insert_if-contains : (u : Bytes) (uris : List Bytes) → contains (insert_if (some u) uris) u ≡ true
insert_if-contains u uris = let e = contains-insert_uri u u uris in ground (arith, str_beq_iff u u)

-- What the attributes of a tag add is in a set.
abbrev pub Collected : List Bytes → (Bytes → Resolution) → List Attribute → Type 0
Collected uris f [] = Unit
Collected uris f (a ∷ attrs) =
    ((u : Bytes) → attr_uri f a.key ≡ some u → contains uris u ≡ true) × Collected uris f attrs

module _ (refusal : Bytes) (f : Bytes → Resolution) where
  collect_attr_uris-Within :
      (xs : List (Option Attribute)) (uris out : List Bytes)
      → collect_attr_uris refusal f xs uris ≡ ok out
      → Within uris out
  unfolding collect_attr_uris
  collect_attr_uris-Within [] uris out h u m = rw (← ok-eq h) m
  collect_attr_uris-Within (none ∷ xs) uris out h u m = cc
  collect_attr_uris-Within (some a ∷ xs) uris out h u m =
      collect_attr_uris-Within xs (insert_if (attr_uri f a.key) uris) out h u
        (insert_if-Within (attr_uri f a.key) uris u m)

  collect_attr_uris-Collected :
      (xs : List Attribute) (uris out : List Bytes)
      → collect_attr_uris refusal f (map some xs) uris ≡ ok out
      → Collected out f xs
  unfolding collect_attr_uris
  collect_attr_uris-Collected [] uris out h = tt
  collect_attr_uris-Collected (a ∷ xs) uris out h = (
    λ u e.
        collect_attr_uris-Within (map some xs) (insert_if (attr_uri f a.key) uris) out h u
          (rw e (insert_if-contains u uris)),
    collect_attr_uris-Collected xs (insert_if (attr_uri f a.key) uris) out h,
  )

pub number_uris-lookup :
    (i : ℕ) (uris : List Bytes) (u : Bytes)
    → contains uris u ≡ true
    → (prefix : Bytes) × (lookup u (number_uris i uris) ≡ some prefix)
unfolding contains number_uris lookup
number_uris-lookup i [] u h = cc
number_uris-lookup i (v ∷ uris) u h = elim (Bool-cases (str_beq v u)) [
  | inl t ↦ (canonical_prefix i, rw t)
  | inr n ↦ (let (prefix, p) = number_uris-lookup (suc i) uris u (rw n at h) in (prefix, rw n p))
]

attr_uri-some :
    (f : Bytes → Resolution) (key u : Bytes)
    → attr_uri f key ≡ some u
    → (is_declaration key ≡ false) × (is_reserved key ≡ false) × (foreign_uri (f key) ≡ some u)
unfolding attr_uri
attr_uri-some f key u h = elim (Bool-cases (is_declaration key)) [
  | inl d ↦ absurd (none_ne (rw d at h))
  | inr d ↦ elim (Bool-cases (is_reserved key)) [
    | inl r ↦ absurd (none_ne (rw (d, r) at h))
    | inr r ↦ (d, r, rw (d, r) at h)
  ]
]

foreign_uri-prefix_of :
    (r : Resolution) (prefixes : Prefixes) (u : Bytes)
    → foreign_uri r ≡ some u
    → prefix_of r prefixes ≡ lookup u prefixes
unfolding foreign_uri prefix_of
foreign_uri-prefix_of (bound ns) prefixes u h = ground arith
foreign_uri-prefix_of (unknown p) prefixes u h = cc
foreign_uri-prefix_of unbound prefixes u h = cc

-- The name that an attribute in a namespace is given.
pub rename-attr_uri :
    (f : Bytes → Resolution) (prefixes : Prefixes) (a : Attribute) (u p local prefix : Bytes)
    → attr_uri f a.key ≡ some u
    → split_at_byte 58 a.key ≡ some (p, local)
    → lookup u prefixes ≡ some prefix
    → rename f prefixes a ≡ some (record { key = prefix ++ bytes ":" ++ local; value = a.value })
unfolding rename
rename-attr_uri f prefixes a u p local prefix h s l =
    let (d, r, e) = attr_uri-some f a.key u h in
    rw (d, r, s, foreign_uri-prefix_of (f a.key) prefixes u e, l)

Collected-Within :
    (f : Bytes → Resolution) (uris uris' : List Bytes) (xs : List Attribute)
    → Within uris uris'
    → Collected uris f xs
    → Collected uris' f xs
Collected-Within f uris uris' [] w c = tt
Collected-Within f uris uris' (a ∷ xs) w c =
    (λ u e. w u (c.0 u e), Collected-Within f uris uris' xs w c.1)

-- A tag whose attributes are all accepted.
abbrev pub plain_tag : Bytes → Bytes → List Attribute → Tag
plain_tag name local attrs = record { name = name; local_name = local; attributes = map some attrs }

module _ (refusal : Tag → Bytes) where
  collect_tag-Within :
      (r : Resolution) (f : Bytes → Resolution) (tag : Tag) (uris out : List Bytes)
      → collect_tag refusal r f tag uris ≡ ok out
      → Within uris out
  unfolding collect_tag
  collect_tag-Within (unknown p) f tag uris out h u m = rw (← ok-eq h) m
  collect_tag-Within (bound ns) f tag uris out h u m =
      collect_attr_uris-Within (refusal tag) f tag.attributes _ out h u
        (insert_if-Within (foreign_uri (bound ns)) uris u m)
  collect_tag-Within unbound f tag uris out h u m =
      collect_attr_uris-Within (refusal tag) f tag.attributes _ out h u m

  collect_event-Within :
      (r : Resolution) (f : Bytes → Resolution) (e : Event) (uris out : List Bytes)
      → collect_seen refusal (record { resolve = r; event = e; resolve_attribute = f }) uris
        ≡ ok out
      → Within uris out
  unfolding collect_seen
  collect_event-Within r f (start tag) uris out h u m = collect_tag-Within r f tag uris out h u m
  collect_event-Within r f (empty tag) uris out h u m = collect_tag-Within r f tag uris out h u m
  collect_event-Within r f (end_tag n) uris out h u m = rw (← ok-eq h) m
  collect_event-Within r f (text t) uris out h u m = rw (← ok-eq h) m
  collect_event-Within r f (cdata t) uris out h u m = rw (← ok-eq h) m
  collect_event-Within r f (general_ref t) uris out h u m = rw (← ok-eq h) m
  collect_event-Within r f other uris out h u m = rw (← ok-eq h) m

  pub collect_used_uris-Within :
      (s : SeenStream) (uris out : List Bytes)
      → collect_used_uris refusal s uris ≡ ok out
      → Within uris out
  unfolding collect_used_uris
  collect_used_uris-Within [] uris out h u m = rw (← ok-eq h) m
  collect_used_uris-Within (err e ∷ s) uris out h u m = cc
  collect_used_uris-Within (ok seen ∷ s) uris out h u m =
      let (uris', first, rest) = >>=-eq-ok (collect_seen refusal seen uris) _ h in
      collect_used_uris-Within s uris' out rest u
        (collect_event-Within seen.resolve seen.resolve_attribute seen.event uris uris' first u m)

  collect_tag-Collected :
      (r : Resolution) (f : Bytes → Resolution) (name local : Bytes) (xs : List Attribute)
      (uris out : List Bytes)
      → ((p : Bytes) → r ≢ unknown p)
      → collect_tag refusal r f (plain_tag name local xs) uris ≡ ok out
      → Collected out f xs
  unfolding collect_tag
  collect_tag-Collected (unknown p) f name local xs uris out known h = absurd (known p refl)
  collect_tag-Collected (bound ns) f name local xs uris out known h =
      collect_attr_uris-Collected (refusal (plain_tag name local xs)) f xs _ out h
  collect_tag-Collected unbound f name local xs uris out known h =
      collect_attr_uris-Collected (refusal (plain_tag name local xs)) f xs _ out h

  -- What a tag that is not of an unknown namespace adds is in the set at the end.
  pub collect_used_uris-Collected :
      (r : Resolution) (f : Bytes → Resolution) (name local : Bytes) (xs : List Attribute)
      (s : SeenStream) (uris out : List Bytes)
      → ((p : Bytes) → r ≢ unknown p)
      → (collect_tag refusal r f (plain_tag name local xs) uris >>= λ uris'.
          collect_used_uris refusal s uris')
        ≡ ok out
      → Collected out f xs
  unfolding collect_tag
  collect_used_uris-Collected r f name local xs s uris out known h =
      let (uris', first, rest) =
        >>=-eq-ok (collect_tag refusal r f (plain_tag name local xs) uris) _ h in
      Collected-Within f uris' out xs (collect_used_uris-Within s uris' out rest)
        (collect_tag-Collected r f name local xs uris uris' known first)
