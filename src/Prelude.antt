-- ===== src/Prelude.antt =====
-- The names that the other modules share: the libraries', passed on, and those of the children.
mod Tests
mod Lists
mod Maps
mod Text
mod Outcome
mod Words
mod Fresh
mod Utf8
pub mod Int
pub mod Run
pub use Tests.*
pub use Lists.*
pub use Maps.*
pub use Outcome.*
pub use Fresh.*
unfoldable pub use Maps.{lookup, insert, or_insert, contains, insert_set}
unfoldable pub use Text.{bytes, str_beq, contains_str, strip_prefix, split_at_byte}
unfoldable pub use Words.{parse_u64, split_whitespace}
unfoldable pub use Utf8.{from_utf8, from_utf8_lossy, utf8_or_empty}
pub use Text.{Bytes, str_beq_iff, str_eq}
pub use Prim.Native.Nat.{ℕ, zero, suc, ◌+◌, ◌-◌, ◌*◌, ◌/◌, ◌%◌, ◌^◌, ◌≤◌, ◌<◌}
pub use mathlib.Core.Path.{◌≡◌, refl, subst, sym, ap, ap₂, ◌∙◌}
pub use mathlib.Core.Logic.{◌≢◌, ◌↔◌, ◌⊎◌, inl, inr}
pub use mathlib.Core.Bool.{Bool, true, false, not, ◌&&◌, ◌||◌}
pub use mathlib.Core.Option.{Option, none, some}
pub use mathlib.Core.List.{List, [], ◌∷◌, ◌++◌, map, append_assoc, append-nil}
pub use native.Mathlib.Omega.{arith}
