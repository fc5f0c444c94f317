-- ===== src/Prelude/Text.antt =====
-- Byte strings. A `str` of the program is the list of its UTF-8 bytes, and so is a `[u8]`.
use Prim.Native.Nat.{ℕ}
use Prim.Native.Char.{code}
use Prim.Native.String.{String}
use mathlib.Core.Path.{◌≡◌, refl}
use mathlib.Core.Logic.{◌↔◌}
use mathlib.Core.Bool.{Bool, true, false, ◌&&◌}
use mathlib.Core.Option.{Option, none, some}
use mathlib.Core.List.{List, [], ◌∷◌}
use native.Mathlib.Omega.{arith}
use soap_server.Prelude.Tests.{Eq, nat_beq, if◌then◌else◌}

abbrev pub Bytes : Type 0
Bytes = List ℕ

-- The bytes of an ASCII literal.
unfoldable pub bytes : String → Bytes
bytes String.[] = []
bytes (String.◌∷◌ c s) = code c ∷ bytes s

unfoldable pub str_beq : Bytes → Bytes → Bool
str_beq [] [] = true
str_beq (a ∷ s) (b ∷ t) = nat_beq a b && str_beq s t
str_beq _ _ = false

str_beq_sound : (s t : Bytes) → str_beq s t ≡ true → s ≡ t
unfolding str_beq
str_beq_sound [] [] h = refl
str_beq_sound [] (b ∷ t) h = ground arith
str_beq_sound (a ∷ s) [] h = ground arith
str_beq_sound (a ∷ s) (b ∷ t) h = ground (arith, str_beq_sound s t)

str_beq_refl : (s : Bytes) → str_beq s s ≡ true
unfolding str_beq
str_beq_refl [] = refl
str_beq_refl (a ∷ s) = ground (arith, str_beq_refl s)

pub str_beq_iff : (s t : Bytes) → (str_beq s t ≡ true) ↔ (s ≡ t)
str_beq_iff s t = (str_beq_sound s t, λ p. rw p (str_beq_refl t))

instance abbrev pub str_eq : Eq Bytes
str_eq = record { beq = str_beq; beq_iff = str_beq_iff }

-- `str::strip_prefix`
unfoldable pub strip_prefix : Bytes → Bytes → Option Bytes
strip_prefix [] s = some s
strip_prefix (p ∷ ps) [] = none
strip_prefix (p ∷ ps) (c ∷ s) = if nat_beq p c then strip_prefix ps s else none

-- `str::contains`
unfoldable pub contains_str : Bytes → Bytes → Bool
unfolding strip_prefix
contains_str p [] = elim (strip_prefix p []) [ none ↦ false | some r ↦ true ]
contains_str p (c ∷ s) = elim (strip_prefix p (c ∷ s)) [ none ↦ contains_str p s | some r ↦ true ]

abbrev extend : ℕ → Option (Bytes × Bytes) → Option (Bytes × Bytes)
extend c none = none
extend c (some (before, after)) = some (c ∷ before, after)

-- `str::find` of an ASCII character, with what stands before and after it.
unfoldable pub split_at_byte : ℕ → Bytes → Option (Bytes × Bytes)
split_at_byte b [] = none
split_at_byte b (c ∷ s) =
    let rest = extend c (split_at_byte b s) in if nat_beq c b then some ([], s) else rest
