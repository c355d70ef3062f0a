-- ===== src/Common/Words.antt =====
-- Machine words as native numbers: the wrapping and saturating operations that the crates use.
use Prim.Native.Nat.{ℕ, zero, suc, ◌+◌, ◌-◌, ◌*◌, ◌%◌, ◌^◌, ◌<◌, min}
use mathlib.Core.Path.{◌≡◌}
use mathlib.Core.Bool.{Bool, true, ◌&&◌}
use native.Mathlib.Omega.{arith}

-- `wrapping_add`, `wrapping_sub` and `wrapping_mul` of `u16`, `u32` and `u64`.
abbrev pub wrapping_add : ℕ → ℕ → ℕ → ℕ
wrapping_add w a b = (a + b) % 2 ^ w

abbrev pub wrapping_sub : ℕ → ℕ → ℕ → ℕ
wrapping_sub w a b = (a + 2 ^ w - b) % 2 ^ w

abbrev pub wrapping_mul : ℕ → ℕ → ℕ → ℕ
wrapping_mul w a b = (a * b) % 2 ^ w

-- `saturating_add`; `saturating_sub` of an unsigned word is `-` on ℕ.
abbrev pub saturating_add : ℕ → ℕ → ℕ → ℕ
saturating_add w a b = min (a + b) (2 ^ w - 1)

abbrev pub saturating_mul : ℕ → ℕ → ℕ → ℕ
saturating_mul w a b = min (a * b) (2 ^ w - 1)

-- Over a small range a Boolean fact is checked at every value.
module _ (test : ℕ → Bool) where
  unfoldable pub holds_below : ℕ → Bool
  holds_below (suc last) = holds_below last && test last
  holds_below zero = true

  pub holds_at :
      (bound : ℕ) {value : ℕ} → value < bound → holds_below bound ≡ true → test value ≡ true
  unfolding holds_below
  holds_at (suc last) {value} small checked = ground (arith, holds_at last {value = value})
  holds_at zero small checked = absurd (omega arith)
