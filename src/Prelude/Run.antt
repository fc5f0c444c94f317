-- ===== src/Prelude/Run.antt =====
-- A run on fuel of code that may fail: `none` is out of fuel.
use mathlib.Core.Path.{◌≡◌, refl}
use mathlib.Core.Logic.{◌≢◌}
use mathlib.Core.Option.{Option, none, some}
use soap_server.Prelude.Outcome.{Result, ok, err}

abbrev pub Run {ℓ κ} : Type ℓ → Type κ → Type (ℓ ⊔ κ)
Run E A = Option (Result E A)

infixl 5 ◌>>=◌ ◌>>◌
abbrev pub ◌>>=◌ {ℓ κ ι} :
    {E : Type ℓ} {A : Type κ} {B : Type ι} → Run E A → (A → Run E B) → Run E B
none >>= f = none
some (err e) >>= f = some (err e)
some (ok a) >>= f = f a

abbrev pub ◌>>◌ {ℓ κ ι} : {E : Type ℓ} {A : Type κ} {B : Type ι} → Run E A → Run E B → Run E B
m >> k = m >>= λ _. k

abbrev pub done {ℓ κ} : {E : Type ℓ} {A : Type κ} → A → Run E A
done a = some (ok a)

abbrev pub map_failure {ℓ κ ι} :
    {E : Type ℓ} {F : Type κ} {A : Type ι} → (E → F) → Run E A → Run F A
map_failure f none = none
map_failure f (some (ok a)) = some (ok a)
map_failure f (some (err e)) = some (err (f e))

-- A sequence of runs that have enough fuel has enough fuel.
pub >>=-ne-none {ℓ κ ι} :
    {E : Type ℓ} {A : Type κ} {B : Type ι} (m : Run E A) (f : A → Run E B)
    → m ≢ none
    → ((a : A) → m ≡ some (ok a) → f a ≢ none)
    → (m >>= f) ≢ none
>>=-ne-none none f h k = absurd (h refl)
>>=-ne-none (some (err e)) f h k = λ p. cc
>>=-ne-none (some (ok a)) f h k = k a refl

-- Inversion of a run that succeeds.
pub >>=-eq-done {ℓ κ ι} :
    {E : Type ℓ} {A : Type κ} {B : Type ι} (m : Run E A) (f : A → Run E B) {b : B}
    → (m >>= f) ≡ some (ok b)
    → (a : A) × (m ≡ some (ok a)) × (f a ≡ some (ok b))
>>=-eq-done none f h = cc
>>=-eq-done (some (err e)) f h = cc
>>=-eq-done (some (ok a)) f h = (a, refl, h)

pub done-fst {ℓ κ ι} :
    {E : Type ℓ} {A : Type κ} {P : Type ι} {a b : A} {p q : P}
    → ◌≡◌ {A = Run E (A × P)} (some (ok (a, p))) (some (ok (b, q)))
    → a ≡ b
done-fst h = cc

pub done-snd {ℓ κ ι} :
    {E : Type ℓ} {A : Type κ} {P : Type ι} {a b : A} {p q : P}
    → ◌≡◌ {A = Run E (A × P)} (some (ok (a, p))) (some (ok (b, q)))
    → p ≡ q
done-snd h = cc

pub done-eq {ℓ κ} :
    {E : Type ℓ} {A : Type κ} {a b : A} → ◌≡◌ {A = Run E A} (some (ok a)) (some (ok b)) → a ≡ b
done-eq h = cc
