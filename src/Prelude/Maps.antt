-- ===== src/Prelude/Maps.antt =====
-- `HashMap` and `HashSet` as association lists and lists; the order of a list stands for the
-- order in which the program's table happens to be iterated.
use Prim.Native.Nat.{◌+◌, ◌≤◌}
use mathlib.Core.Path.{◌≡◌, refl}
use mathlib.Core.Bool.{Bool, true, false, ◌||◌}
use mathlib.Core.Option.{Option, none, some}
use mathlib.Core.List.{List, [], ◌∷◌}
use native.Mathlib.Omega.{arith}
use soap_server.Prelude.Tests.{Eq, ◌==◌, if◌then◌else◌}
use soap_server.Prelude.Lists.{length}

abbrev pub Map {ℓ κ} : Type ℓ → Type κ → Type (ℓ ⊔ κ)
Map K V = List (K × V)

-- `HashMap::keys`
abbrev pub keys {ℓ κ} : {K : Type ℓ} {V : Type κ} → Map K V → List K
keys [] = []
keys ((k, v) ∷ m) = k ∷ keys m

module _ {ℓ κ} {K : Type ℓ} {V : Type κ} ⦃e : Eq K⦄ where
  unfoldable pub lookup : K → Map K V → Option V
  lookup key [] = none
  lookup key ((k, value) ∷ rest) = if k == key then some value else lookup key rest

  -- `HashMap::insert`
  unfoldable pub insert : K → V → Map K V → Map K V
  insert key value [] = (key, value) ∷ []
  insert key value ((k, old) ∷ rest) =
      if k == key then (key, value) ∷ rest else (k, old) ∷ insert key value rest

  -- `HashMap::entry(k).or_insert(v)`
  unfoldable pub or_insert : K → V → Map K V → Map K V
  or_insert k v [] = (k, v) ∷ []
  or_insert k v ((j, w) ∷ m) = if j == k then (j, w) ∷ m else (j, w) ∷ or_insert k v m

  pub lookup-insert :
      (key k : K) (value : V) (m : Map K V)
      → lookup k (insert key value m) ≡ (if key == k then some value else lookup k m)
  unfolding lookup insert
  lookup-insert key k value [] = refl
  lookup-insert key k value ((i, old) ∷ rest) =
      let ih = lookup-insert key k value rest in
      ground (arith, e.beq_iff key k, e.beq_iff i key, e.beq_iff i k)

module _ {ℓ} {K : Type ℓ} ⦃e : Eq K⦄ where
  -- `HashSet::contains`
  unfoldable pub contains : List K → K → Bool
  contains [] k = false
  contains (j ∷ s) k = j == k || contains s k

  -- `HashSet::insert`
  unfoldable pub insert_set : K → List K → List K
  insert_set k s = if contains s k then s else k ∷ s

  pub contains-insert_set :
      (k j : K) (s : List K) → contains (insert_set k s) j ≡ (if k == j then true else contains s j)
  unfolding contains insert_set
  contains-insert_set k j s = ground (arith, e.beq_iff k j)

  pub length-insert_set : (k : K) (s : List K) → length (insert_set k s) ≤ length s + 1
  unfolding insert_set
  length-insert_set k s = ground arith

pub length-keys {ℓ κ} : {K : Type ℓ} {V : Type κ} (m : Map K V) → length (keys m) ≡ length m
length-keys [] = refl
length-keys ((k, v) ∷ m) = omega (arith, length-keys m)

pub contains-keys {ℓ κ} :
    {K : Type ℓ} {V : Type κ} ⦃e : Eq K⦄ (k : K) (m : Map K V) (v : V)
    → lookup k m ≡ some v
    → contains (keys m) k ≡ true
unfolding lookup contains
contains-keys k [] v h = cc
contains-keys k ((j, w) ∷ m) v h = ground (arith, contains-keys k m v)
