-- ===== src/Crossref/Order.antt =====
-- `attrs.sort_by(|x, y| x.0.cmp(&y.0))`: the stable sort of attributes by the bytes of their names
-- (crossref/src/normalize.rs), and what it forgets.
use soap_server.Prelude.{
  ◌≡◌, ◌≢◌, refl, ap, ◌∙◌, arith, Bool, true, false, Bytes, List, [], ◌∷◌, nat_beq, ltb,
  if◌then◌else◌,
}
use soap_server.Xml.{Attribute}

-- `Ord` of byte strings.
unfoldable pub bytes_le : Bytes → Bytes → Bool
bytes_le [] t = true
bytes_le (a ∷ s) [] = false
bytes_le (a ∷ s) (b ∷ t) = let rest = bytes_le s t in if nat_beq a b then rest else ltb a b

unfoldable pub insert_attr : Attribute → List Attribute → List Attribute
unfolding bytes_le
insert_attr a [] = a ∷ []
insert_attr a (b ∷ attrs) =
    let rest = insert_attr a attrs in if bytes_le a.key b.key then a ∷ b ∷ attrs else b ∷ rest

unfoldable pub sort_by_key : List Attribute → List Attribute
unfolding insert_attr
sort_by_key [] = []
sort_by_key (a ∷ attrs) = insert_attr a (sort_by_key attrs)

bytes_le_total : (s t : Bytes) → bytes_le s t ≡ false → bytes_le t s ≡ true
unfolding bytes_le
bytes_le_total [] t h = cc
bytes_le_total (a ∷ s) [] h = refl
bytes_le_total (a ∷ s) (b ∷ t) h = ground (arith, bytes_le_total s t)

bytes_le_antisym : (s t : Bytes) → bytes_le s t ≡ true → bytes_le t s ≡ true → s ≡ t
unfolding bytes_le
bytes_le_antisym [] [] h k = refl
bytes_le_antisym [] (b ∷ t) h k = cc
bytes_le_antisym (a ∷ s) [] h k = cc
bytes_le_antisym (a ∷ s) (b ∷ t) h k = ground (arith, bytes_le_antisym s t)

bytes_le_trans : (s t u : Bytes) → bytes_le s t ≡ true → bytes_le t u ≡ true → bytes_le s u ≡ true
unfolding bytes_le
bytes_le_trans [] t u h k = refl
bytes_le_trans (a ∷ s) [] u h k = cc
bytes_le_trans (a ∷ s) (b ∷ t) [] h k = cc
bytes_le_trans (a ∷ s) (b ∷ t) (c ∷ u) h k = ground (arith, bytes_le_trans s t u)

-- Two attributes with different names can be inserted in either order.
insert_attr_comm :
    (a b : Attribute) (attrs : List Attribute)
    → a.key ≢ b.key
    → insert_attr a (insert_attr b attrs) ≡ insert_attr b (insert_attr a attrs)
unfolding insert_attr
insert_attr_comm a b [] differ =
    ground (arith, bytes_le_total a.key b.key, bytes_le_antisym a.key b.key)
insert_attr_comm a b (c ∷ attrs) differ = ground (
  arith,
  insert_attr_comm a b attrs differ,
  bytes_le_total a.key b.key,
  bytes_le_antisym a.key b.key,
  bytes_le_trans a.key b.key c.key,
  bytes_le_trans b.key a.key c.key,
  bytes_le_total b.key c.key,
  bytes_le_total a.key c.key,
)

-- Another order of attributes, in which those of the same name keep theirs.
pub data Reordered : List Attribute → List Attribute → Type 0 where
  same : (attrs : List Attribute) → Reordered attrs attrs
  keep : (a : Attribute) {xs ys : List Attribute} → Reordered xs ys → Reordered (a ∷ xs) (a ∷ ys)
  swap :
      (a b : Attribute) (attrs : List Attribute)
      → a.key ≢ b.key
      → Reordered (a ∷ b ∷ attrs) (b ∷ a ∷ attrs)
  both : {xs ys zs : List Attribute} → Reordered xs ys → Reordered ys zs → Reordered xs zs

pub sort_by_key-Reordered :
    {xs ys : List Attribute} → Reordered xs ys → sort_by_key xs ≡ sort_by_key ys
unfolding sort_by_key
sort_by_key-Reordered (same attrs) = refl
sort_by_key-Reordered (keep a r) = ap (insert_attr a) (sort_by_key-Reordered r)
sort_by_key-Reordered (swap a b attrs differ) = insert_attr_comm a b (sort_by_key attrs) differ
sort_by_key-Reordered (both r q) = sort_by_key-Reordered r ∙ sort_by_key-Reordered q
