-- ===== src/Prelude/Utf8.antt =====
-- `str::from_utf8` and `String::from_utf8_lossy`, as one machine over the bytes. Its state is the
-- bytes of the character begun and the ranges that its next bytes must lie in.
use Prim.Native.Nat.{ℕ}
use mathlib.Core.Bool.{Bool, true, false, ◌&&◌}
use mathlib.Core.Option.{Option, none, some}
use mathlib.Core.List.{List, [], ◌∷◌, ◌++◌}
use soap_server.Prelude.Tests.{leb, ltb, nat_beq, if◌then◌else◌}
use soap_server.Prelude.Text.{Bytes}

abbrev pub Range : Type 0
Range = ℕ × ℕ

abbrev pub within : Range → ℕ → Bool
within (lo, hi) c = leb lo c && leb c hi

abbrev pub follow : Range
follow = (0x80, 0xbf)

-- A decoded character or a maximal invalid piece.
pub data Chunk : Type 0 where
  valid : Bytes → Chunk
  invalid : Chunk

pub record Machine : Type 0 where
  pub begun : Bytes
  pub expected : List Range

abbrev pub idle : Machine
idle = record { begun = []; expected = [] }

-- The ranges of the bytes that follow a first byte; `none` for a byte that begins no character.
abbrev pub ranges : ℕ → Option (List Range)
ranges c =
    if ltb c 0x80
    then some []
    else if within (0xc2, 0xdf) c
    then some (follow ∷ [])
    else if nat_beq c 0xe0
    then some ((0xa0, 0xbf) ∷ follow ∷ [])
    else if nat_beq c 0xed
    then some ((0x80, 0x9f) ∷ follow ∷ [])
    else if within (0xe1, 0xef) c
    then some (follow ∷ follow ∷ [])
    else if nat_beq c 0xf0
    then some ((0x90, 0xbf) ∷ follow ∷ follow ∷ [])
    else if within (0xf1, 0xf3) c
    then some (follow ∷ follow ∷ follow ∷ [])
    else if nat_beq c 0xf4
    then some ((0x80, 0x8f) ∷ follow ∷ follow ∷ [])
    else none

abbrev pub settle : Bytes → List Range → List Chunk × Machine
settle begun [] = (valid begun ∷ [], idle)
settle begun (r ∷ rs) = ([], record { begun = begun; expected = r ∷ rs })

abbrev pub begin_with : ℕ → Option (List Range) → List Chunk × Machine
begin_with c none = (invalid ∷ [], idle)
begin_with c (some rs) = settle (c ∷ []) rs

abbrev pub step_in : Bytes → List Range → ℕ → List Chunk × Machine
step_in begun [] c = begin_with c (ranges c)
step_in begun (r ∷ rs) c =
    if within r c
    then settle (begun ++ c ∷ []) rs
    else (let (out, m) = begin_with c (ranges c) in (invalid ∷ out, m))

chunks_from : Machine → Bytes → List Chunk
chunks_from m [] = elim m.expected [ [] ↦ [] | r ∷ rs ↦ invalid ∷ [] ]
chunks_from m (c ∷ s) = let (out, next) = step_in m.begun m.expected c in out ++ chunks_from next s

abbrev pub all_valid : List Chunk → Bool
all_valid [] = true
all_valid (valid s ∷ cs) = all_valid cs
all_valid (invalid ∷ cs) = false

abbrev pub replaced : List Chunk → Bytes
replaced [] = []
replaced (valid s ∷ cs) = s ++ replaced cs
replaced (invalid ∷ cs) = 0xef ∷ 0xbf ∷ 0xbd ∷ replaced cs

unfoldable pub from_utf8 : Bytes → Option Bytes
unfolding chunks_from
from_utf8 s = if all_valid (chunks_from idle s) then some s else none

unfoldable pub from_utf8_lossy : Bytes → Bytes
unfolding chunks_from
from_utf8_lossy s = replaced (chunks_from idle s)

abbrev pub or_empty : Option Bytes → Bytes
or_empty none = []
or_empty (some s) = s

-- `str::from_utf8(s).unwrap_or("")`
unfoldable pub utf8_or_empty : Bytes → Bytes
unfolding from_utf8
utf8_or_empty s = or_empty (from_utf8 s)
