-- ===== src/Common/Bits.antt =====
-- Fields packed into a word by `|` over a shift.
use Prim.Native.Nat.{
  ℕ, zero, suc, ◌+◌, ◌*◌, ◌/◌, ◌^◌, ◌<◌, ◌≤◌, max, bit_or, digits, bit_or-bitwise,
}
use mathlib.Core.Path.{◌≡◌, ap, ◌∙◌}
use native.Mathlib.Nat.{mul_left_comm}
use native.Mathlib.Omega.{arith}

-- The digits of an `or` whose second number is shifted past the first.
shifted :
    (w fuel low high : ℕ)
    → low ≤ fuel
    → low < 2 ^ w
    → digits (λ b. b) max fuel low (high * 2 ^ w) ≡ low + high * 2 ^ w
shifted w zero zero high enough fits = omega arith
shifted w (suc fuel) zero high enough fits = omega arith
shifted w zero (suc low) high enough fits = absurd (omega arith)
shifted zero (suc fuel) (suc low) high enough fits = absurd (omega arith)
shifted (suc w) (suc fuel) (suc low) high enough fits = omega (
  arith,
  even,
  ap (λ (x : ℕ). digits (λ b. b) max fuel (suc low / 2) x) half,
  shifted w fuel (suc low / 2) high (omega arith) (omega (arith, power)),
)
  where
    power : 2 ^ suc w ≡ 2 * 2 ^ w
    power = omega arith

    even : high * 2 ^ suc w ≡ 2 * (high * 2 ^ w)
    even = rw power (mul_left_comm high 2 (2 ^ w))

    half : (high * 2 ^ suc w) / 2 ≡ high * 2 ^ w
    half = omega (arith, even)

pub bit_or-shift : (w low high : ℕ) → low < 2 ^ w → bit_or low (high * 2 ^ w) ≡ low + high * 2 ^ w
bit_or-shift w low high fits =
    bit_or-bitwise low (high * 2 ^ w) ∙ shifted w low low high (omega arith) fits
