-- ===== src/Server/Paths.antt =====
-- `extract_path_from_url` and `normalize_path` of src/server.rs.
use soap_server.Prelude.{
  ◌++◌, Option-cases, ℕ, zero, suc, Bool-cases, inl, inr, ◌≢◌, All, nat_beq_iff, ◌≡◌, arith, refl,
  Bytes, bytes, Option, none, some, List, [], ◌∷◌, strip_prefix, nat_beq, if◌then◌else◌,
}

-- `split_once("://")`, what follows the separator.
unfoldable pub after_scheme : Bytes → Option Bytes
after_scheme [] = none
after_scheme (c ∷ s) = elim (strip_prefix (bytes "://") (c ∷ s)) [
  | some rest ↦ some rest
  | none ↦ after_scheme s
]

-- From the first slash on.
unfoldable pub from_slash : Bytes → Option Bytes
from_slash [] = none
from_slash (c ∷ s) = if nat_beq c b'/' then some (c ∷ s) else from_slash s

abbrev path_of : Option Bytes → Bytes
path_of none = bytes "/"
path_of (some path) = path

abbrev rooted : Bytes → Bytes
rooted [] = bytes "/"
rooted (c ∷ url) = if nat_beq c b'/' then c ∷ url else b'/' ∷ c ∷ url

unfoldable pub extract_path_from_url : Bytes → Bytes
extract_path_from_url url = elim (after_scheme url) [
  | some rest ↦ path_of (from_slash rest)
  | none ↦ rooted url
]

-- `std::path::Component`, of Unix.
pub data Component : Type 0 where
  root_dir cur_dir parent_dir : Component
  normal : Bytes → Component

-- `PathBuf::pop` on the components, the last one first: the root stays.
abbrev pub pop : List Component → List Component
pop [] = []
pop (root_dir ∷ path) = root_dir ∷ path
pop (c ∷ path) = path

-- `PathBuf::push`: the root replaces what there is.
abbrev pub push : Component → List Component → List Component
push root_dir path = root_dir ∷ []
push c path = c ∷ path

-- The loop of `normalize_path`, on the components of the path; the result has the last one first.
unfoldable pub normalize_onto : List Component → List Component → List Component
normalize_onto path [] = path
normalize_onto path (parent_dir ∷ cs) = normalize_onto (pop path) cs
normalize_onto path (cur_dir ∷ cs) = normalize_onto path cs
normalize_onto path (c ∷ cs) = normalize_onto (push c path) cs

unfoldable pub normalize_path : List Component → List Component
unfolding normalize_onto
normalize_path cs = normalize_onto [] cs

-- The path starts with a slash.
abbrev pub IsRooted : Bytes → Type 0
IsRooted path = (rest : Bytes) × (path ≡ b'/' ∷ rest)

from_slash-IsRooted : (s path : Bytes) → from_slash s ≡ some path → IsRooted path
unfolding from_slash
from_slash-IsRooted [] path h = absurd (ground arith)
from_slash-IsRooted (c ∷ s) path h = elim (Bool-cases (nat_beq c b'/')) [
  | inl slash ↦ (s, ground (arith, nat_beq_iff c b'/'))
  | inr otherwise ↦ from_slash-IsRooted s path (ground arith)
]

from_slash-append :
    (host path : Bytes)
    → All (λ c. c ≢ b'/') host
    → from_slash (host ++ b'/' ∷ path) ≡ some (b'/' ∷ path)
unfolding from_slash
from_slash-append [] path h = ground arith
from_slash-append (c ∷ host) path (n, h) = ground (arith, from_slash-append host path h)

rooted-IsRooted : (url : Bytes) → IsRooted (rooted url)
unfolding bytes
rooted-IsRooted [] = ([], refl)
rooted-IsRooted (c ∷ url) = elim (Bool-cases (nat_beq c b'/')) [
  | inl slash ↦ (url, ground (arith, nat_beq_iff c b'/'))
  | inr otherwise ↦ (c ∷ url, ground arith)
]

path_of-IsRooted : (rest : Bytes) → IsRooted (path_of (from_slash rest))
unfolding bytes
path_of-IsRooted rest = elim (Option-cases (from_slash rest)) [
  | inl missing ↦ ([], rw missing refl)
  | inr (path, found) ↦ rw found (from_slash-IsRooted rest path found)
]

-- The path extracted from any text starts with a slash.
pub extract_path-IsRooted : (url : Bytes) → IsRooted (extract_path_from_url url)
unfolding extract_path_from_url
extract_path-IsRooted url = elim (Option-cases (after_scheme url)) [
  | inl missing ↦ rw (missing, extract_path_from_url) (rooted-IsRooted url)
  | inr (rest, found) ↦ rw (found, extract_path_from_url) (path_of-IsRooted rest)
]

-- From `http://`, a host without slashes and a path that starts with a slash, exactly that
-- path is extracted.
pub extract_path-http :
    (host path : Bytes)
    → All (λ c. c ≢ b'/') host
    → extract_path_from_url (bytes "http://" ++ (host ++ b'/' ∷ path)) ≡ b'/' ∷ path
unfolding extract_path_from_url after_scheme strip_prefix bytes
extract_path-http host path h = rw (from_slash-append host path h)

-- No component of the path is `.` or `..`.
abbrev pub IsPlain : Component → Type 0
IsPlain cur_dir = ⊥
IsPlain parent_dir = ⊥
IsPlain _ = Unit {0}

pop-IsPlain : (path : List Component) → All IsPlain path → All IsPlain (pop path)
pop-IsPlain [] h = tt
pop-IsPlain (root_dir ∷ path) h = h
pop-IsPlain (cur_dir ∷ path) (h, hs) = hs
pop-IsPlain (parent_dir ∷ path) (h, hs) = hs
pop-IsPlain (normal c ∷ path) (h, hs) = hs

normalize_onto-IsPlain :
    (path cs : List Component) → All IsPlain path → All IsPlain (normalize_onto path cs)
unfolding normalize_onto
normalize_onto-IsPlain path [] h = h
normalize_onto-IsPlain path (root_dir ∷ cs) h = normalize_onto-IsPlain (root_dir ∷ []) cs (tt, tt)
normalize_onto-IsPlain path (cur_dir ∷ cs) h = normalize_onto-IsPlain path cs h
normalize_onto-IsPlain path (parent_dir ∷ cs) h =
    normalize_onto-IsPlain (pop path) cs (pop-IsPlain path h)
normalize_onto-IsPlain path (normal c ∷ cs) h = normalize_onto-IsPlain (normal c ∷ path) cs (tt, h)

-- A normalised path has no component `.` or `..`.
pub normalize_path-IsPlain : (cs : List Component) → All IsPlain (normalize_path cs)
unfolding normalize_path
normalize_path-IsPlain cs = normalize_onto-IsPlain [] cs tt

-- `n` times `..`, before the rest of a path.
abbrev pub climb : ℕ → List Component → List Component
climb zero cs = cs
climb (suc n) cs = parent_dir ∷ climb n cs

-- Leading `..` components of a path, however many, are dropped by its normalisation.
pub leading_parents_lost :
    (n : ℕ) (cs : List Component) → normalize_path (climb n cs) ≡ normalize_path cs
unfolding normalize_path normalize_onto
leading_parents_lost zero cs = refl
leading_parents_lost (suc n) cs = leading_parents_lost n cs
