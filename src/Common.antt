-- ===== src/Common.antt =====
-- The names that the other modules share: the libraries', passed on, and those of its children.
mod Tests
mod Lists
mod Words
mod Int
pub mod Bounded
pub mod Run
pub mod Keys
pub mod Bits
pub use Tests.*
pub use Lists.{
  length, get_elem?, get_or, take, drop, replicate, is_empty, length-append, take-append-drop,
  length-take, length-drop, length-replicate, drop-append_of_le, length-map, append_cancel_left,
  All,
}
pub use Words.{wrapping_add, wrapping_sub, wrapping_mul, saturating_add, saturating_mul, holds_at}
unfoldable pub use Words.{holds_below}
pub use Prim.Native.Nat.{
  ℕ, zero, suc, ◌+◌, ◌-◌, ◌*◌, ◌/◌, ◌%◌, ◌^◌, ◌≤◌, ◌<◌, min, max, bit_and, bit_or, bit_xor,
}
pub use mathlib.Core.Path.{◌≡◌, refl, sym, ap, ◌∙◌, subst}
pub use mathlib.Core.Logic.{◌≢◌, ◌↔◌, ◌⊎◌, inl, inr}
pub use mathlib.Core.Bool.{Bool, true, false, not, ◌&&◌, ◌||◌}
pub use mathlib.Core.Option.{Option, none, some}
pub use mathlib.Core.List.{List, [], ◌∷◌, ◌++◌, map, append-nil, append_assoc}
pub use native.Mathlib.Omega.{arith}
pub use Int.{ℤ, pos, negsuc, as_i64, pos_part, neg_part, sub_ℕ, ◌≤ℤ◌}
unfoldable pub use Int.{◌+ℤ◌, ◌-ℤ◌}
