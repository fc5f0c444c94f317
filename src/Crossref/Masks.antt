-- ===== src/Crossref/Masks.antt =====
-- What the passes of the normaliser share: local names, paths, mask rules and the stack
-- (crossref/src/normalize.rs).
use soap_server.Prelude.{
  ℕ, Bytes, bytes, Bool, true, false, ◌&&◌, ◌||◌, Option, none, some, List, [], ◌∷◌, ◌++◌, ◌≡◌,
  refl, ap, map, nat_beq, str_eq, ◌==◌, from_utf8_lossy, if◌then◌else◌, Result, ok, err, ◌>>=◌,
}
use soap_server.Xml.{Attribute, Event}

-- What stands after the last byte `b` of a name, `none` if it has no such byte.
unfoldable pub after_last : ℕ → Bytes → Option Bytes
after_last b [] = none
after_last b (c ∷ s) = elim (after_last b s) [
  | some r ↦ some r
  | none ↦ if nat_beq c b then some s else none
]

unfoldable pub local_name : Bytes → Bytes
unfolding after_last from_utf8_lossy
local_name full = elim (after_last 58 full) [
  | some local ↦ from_utf8_lossy local
  | none ↦ from_utf8_lossy full
]

abbrev extend_first : ℕ → List Bytes → List Bytes
extend_first c [] = (c ∷ []) ∷ []
extend_first c (piece ∷ rest) = (c ∷ piece) ∷ rest

-- `path.split('/')`
unfoldable pub split_slash : Bytes → List Bytes
split_slash [] = [] ∷ []
split_slash (c ∷ s) =
    let rest = split_slash s in if nat_beq c 47 then [] ∷ rest else extend_first c rest

pub record MaskRule : Type 0 where
  pub segments : List Bytes

unfoldable pub new_mask : Bytes → MaskRule
unfolding split_slash
new_mask path = record { segments = split_slash path }

-- The comparison of lengths and of the pairs of a stack and a rule's segments.
unfoldable pub same_path : List Bytes → List Bytes → Bool
same_path [] [] = true
same_path (a ∷ stack) (b ∷ segments) = a == b && same_path stack segments
same_path _ _ = false

unfoldable pub matches : List Bytes → MaskRule → Bool
unfolding same_path
matches stack rule = same_path stack rule.segments

-- `masks.iter().any(|m| m.matches(&stack))`
unfoldable pub any_matches : List MaskRule → List Bytes → Bool
unfolding matches
any_matches [] stack = false
any_matches (rule ∷ rules) stack = matches stack rule || any_matches rules stack

-- `Vec::push` and `Vec::pop` of the stack.
abbrev pub push : List Bytes → Bytes → List Bytes
push stack name = stack ++ name ∷ []

unfoldable pub pop : List Bytes → List Bytes
pop [] = []
pop (a ∷ []) = []
pop (a ∷ b ∷ stack) = a ∷ pop (b ∷ stack)

pub pop-push : (stack : List Bytes) (name : Bytes) → pop (push stack name) ≡ stack
unfolding pop
pop-push [] name = refl
pop-push (a ∷ []) name = refl
pop-push (a ∷ b ∷ stack) name = ap (λ s. a ∷ s) (pop-push (b ∷ stack) name)

-- `for a in e.attributes() { let a = a.map_err(…)?; … }`, where `refusal` is the message of the
-- attribute that is refused.
unfoldable pub each_attribute : Bytes → List (Option Attribute) → Result Bytes (List Attribute)
each_attribute refusal [] = ok []
each_attribute refusal (none ∷ rest) = err refusal
each_attribute refusal (some attr ∷ rest) = do
  others ← each_attribute refusal rest
  ok (attr ∷ others)

abbrev pub mask_sentinel : Bytes
mask_sentinel = bytes "__MASKED__"

-- What is written for the rest of a document, continued.
abbrev pub map_ok :
    (List Event → List Event) → Result Bytes (List Event) → Result Bytes (List Event)
map_ok f r = do others ← r; ok (f others)

-- A step that writes nothing.
pub silent : (r : Result Bytes (List Event)) → map_ok (λ others. others) r ≡ r
silent (ok x) = refl
silent (err e) = refl

pub map_ok-map_ok :
    (f g : List Event → List Event) (r : Result Bytes (List Event))
    → map_ok f (map_ok g r) ≡ map_ok (λ others. f (g others)) r
map_ok-map_ok f g (ok x) = refl
map_ok-map_ok f g (err e) = refl

abbrev pub add_event : Event → List Event → List Event
add_event e others = e ∷ others

pub each_attribute-map-some :
    (refusal : Bytes) (attrs : List Attribute) → each_attribute refusal (map some attrs) ≡ ok attrs
unfolding each_attribute
each_attribute-map-some refusal [] = refl
each_attribute-map-some refusal (a ∷ attrs) = rw (each_attribute-map-some refusal attrs)
