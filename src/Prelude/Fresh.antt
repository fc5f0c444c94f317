-- ===== src/Prelude/Fresh.antt =====
-- How many of some keys a set does not hold yet: the measure of a search that marks what it visits.
use Prim.Native.Nat.{ℕ, suc, ◌≤◌, ◌<◌}
use mathlib.Core.Path.{◌≡◌}
use mathlib.Core.Bool.{true, false}
use mathlib.Core.List.{List, [], ◌∷◌}
use native.Mathlib.Omega.{arith}
use soap_server.Prelude.Tests.{Eq, if◌then◌else◌}
use soap_server.Prelude.Lists.{length}
use soap_server.Prelude.Maps.{contains, insert_set, contains-insert_set}

module _ {ℓ} {K : Type ℓ} ⦃e : Eq K⦄ where
  abbrev pub fresh : List K → List K → ℕ
  fresh [] seen = 0
  fresh (k ∷ ks) seen = if contains seen k then fresh ks seen else suc (fresh ks seen)

  -- Every element of one set is in another.
  abbrev pub Grows : List K → List K → Type ℓ
  Grows s t = (k : K) → contains s k ≡ true → contains t k ≡ true

  pub fresh-le-length : (ks seen : List K) → fresh ks seen ≤ length ks
  fresh-le-length [] seen = omega arith
  fresh-le-length (k ∷ ks) seen = ground (arith, fresh-le-length ks seen)

  pub fresh-Grows : (ks s t : List K) → Grows s t → fresh ks t ≤ fresh ks s
  fresh-Grows [] s t h = omega arith
  fresh-Grows (k ∷ ks) s t h = ground (arith, fresh-Grows ks s t h, h k)

  pub insert_set-Grows : (k : K) (s : List K) → Grows s (insert_set k s)
  insert_set-Grows k s j h = ground (arith, contains-insert_set k j s)

  pub fresh-insert_set :
      (ks s : List K) (k : K)
      → contains ks k ≡ true
      → contains s k ≡ false
      → fresh ks (insert_set k s) < fresh ks s
  unfolding contains
  fresh-insert_set [] s k h u = cc
  fresh-insert_set (j ∷ ks) s k h u = ground (
    arith,
    contains-insert_set k j s,
    e.beq_iff j k,
    e.beq_iff k j,
    fresh-insert_set ks s k,
    fresh-Grows ks s (insert_set k s) (insert_set-Grows k s),
  )
