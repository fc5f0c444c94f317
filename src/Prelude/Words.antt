-- ===== src/Prelude/Words.antt =====
-- `str::parse::<u64>` and `str::split_whitespace`.
use Prim.Native.Nat.{ℕ, zero, suc, ◌+◌, ◌-◌, ◌*◌, ◌^◌}
use mathlib.Core.Bool.{Bool, ◌&&◌, ◌||◌}
use mathlib.Core.Option.{Option, none, some}
use mathlib.Core.List.{List, [], ◌∷◌, ◌++◌}
use soap_server.Prelude.Tests.{ltb, leb, nat_beq, if◌then◌else◌}
use soap_server.Prelude.Text.{Bytes}

abbrev is_digit : ℕ → Bool
is_digit c = leb b'0' c && leb c b'9'

-- The digits' value after that of the digits before, unless a byte is none or it overflows.
unfoldable pub parse_digits : Bytes → ℕ → Option ℕ
parse_digits [] n = some n
parse_digits (c ∷ s) n =
    let rest = parse_digits s (n * 10 + (c - b'0')) in
    if is_digit c && ltb (n * 10 + (c - b'0')) (2 ^ 64) then rest else none

abbrev pub parse_unsigned : Bytes → Option ℕ
parse_unsigned [] = none
parse_unsigned (c ∷ s) = parse_digits (c ∷ s) 0

-- One sign `+` is allowed.
unfoldable pub parse_u64 : Bytes → Option ℕ
unfolding parse_digits
parse_u64 [] = none
parse_u64 (c ∷ s) = if nat_beq c b'+' then parse_unsigned s else parse_unsigned (c ∷ s)

abbrev is_space_byte : ℕ → Bool
is_space_byte c = (leb 9 c && leb c 13) || nat_beq c 32

-- How many bytes follow the first of the white space that stands first, if any does.
abbrev space_width : Bytes → Option ℕ
space_width [] = none
space_width (c ∷ []) = if is_space_byte c then some 0 else none
space_width (c ∷ d ∷ []) =
    if is_space_byte c
    then some 0
    else if nat_beq c 0xC2 && (nat_beq d 0x85 || nat_beq d 0xA0)
    then some 1
    else none
space_width (c ∷ d ∷ e ∷ s) =
    if is_space_byte c
    then some 0
    else if nat_beq c 0xC2 && (nat_beq d 0x85 || nat_beq d 0xA0)
    then some 1
    else if nat_beq c 0xE1 && nat_beq d 0x9A && nat_beq e 0x80
    then some 2
    else if nat_beq c 0xE2
        && nat_beq d 0x80
        && (leb 0x80 e && leb e 0x8A || nat_beq e 0xA8 || nat_beq e 0xA9 || nat_beq e 0xAF)
    then some 2
    else if nat_beq c 0xE2 && nat_beq d 0x81 && nat_beq e 0x9F
    then some 2
    else if nat_beq c 0xE3 && nat_beq d 0x80 && nat_beq e 0x80
    then some 2
    else none

abbrev flush : Bytes → List Bytes → List Bytes
flush [] words = words
flush (c ∷ word) words = (c ∷ word) ∷ words

-- The number says how many bytes of a white space are left; the word so far comes last.
unfoldable pub words_from : Bytes → ℕ → Bytes → List Bytes
words_from [] n word = flush word []
words_from (c ∷ s) (suc n) word = words_from s n word
words_from (c ∷ s) zero word = elim (space_width (c ∷ s)) [
  | none ↦ words_from s 0 (word ++ c ∷ [])
  | some n ↦ flush word (words_from s n [])
]

unfoldable pub split_whitespace : Bytes → List Bytes
unfolding words_from
split_whitespace s = words_from s 0 []
