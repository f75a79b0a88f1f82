-- ===== src/Base/Bits.antt =====
-- `|` of numbers whose bits do not overlap is their sum, for every width.
use Prim.Native.Nat.{
  ℕ, zero, suc, ◌+◌, ◌*◌, ◌/◌, ◌^◌, ◌≤◌, ◌<◌, max, bit_or, digits, bit_or-bitwise,
}
use mathlib.Core.Path.{◌≡◌, ap, ◌∙◌}
use native.Mathlib.Nat.{pow-suc}
use native.Mathlib.Omega.{arith}

-- `|` digit by digit, on `fuel` digits of `low` at most.
abbrev joined : ℕ → ℕ → ℕ → ℕ
joined fuel low high = digits (λ c. c) max fuel low high

-- A shift by one more bit.
shift-suc : (b k : ℕ) → b * 2 ^ suc k ≡ b * 2 ^ k * 2
shift-suc b k = ap (λ t. b * t) (pow-suc 2 k) ∙ omega arith

-- The low part has the fewer bits: the high one is only shifted along.
join_under :
    (fuel k low b : ℕ) → low ≤ fuel → low < 2 ^ k → joined fuel low (b * 2 ^ k) ≡ low + b * 2 ^ k
join_under zero k zero b covers h = omega arith
join_under zero k (suc low) b covers h = absurd (omega arith)
join_under (suc fuel) k zero b covers h = omega arith
join_under (suc fuel) zero (suc low) b covers h = absurd (omega arith)
join_under (suc fuel) (suc k) (suc low) b covers h =
    let below : suc low / 2 < 2 ^ k = omega (arith, pow-suc 2 k) in
    let halved : b * 2 ^ suc k / 2 ≡ b * 2 ^ k = omega (arith, shift-suc b k) in
    omega (
      arith,
      shift-suc b k,
      ap (joined fuel (suc low / 2)) halved,
      join_under fuel k (suc low / 2) b (omega arith) below,
    )

-- The high part comes first, and its lowest `k` bits are zero.
join_over :
    (fuel k high low b : ℕ)
    → high ≤ fuel
    → high ≡ b * 2 ^ k
    → low < 2 ^ k
    → joined fuel high low ≡ low + high
join_over zero k zero low b covers e h = omega arith
join_over zero k (suc high) low b covers e h = absurd (omega arith)
join_over (suc fuel) k zero low b covers e h = omega arith
join_over (suc fuel) zero (suc high) low b covers e h = omega (
  arith,
  join_over fuel zero (suc high / 2) (low / 2) (suc high / 2) (omega arith) (omega arith)
      (omega arith),
)
join_over (suc fuel) (suc k) (suc high) low b covers e h =
    let below : low / 2 < 2 ^ k = omega (arith, pow-suc 2 k) in
    omega (
      arith,
      shift-suc b k,
      join_over fuel k (suc high / 2) (low / 2) b (omega arith) (omega (arith, shift-suc b k))
          below,
    )

-- The bits of `a` lie below bit `k`, and those of `b * 2 ^ k` from there on.
pub bit_or_disjoint : (k a b : ℕ) → a < 2 ^ k → bit_or a (b * 2 ^ k) ≡ a + b * 2 ^ k
bit_or_disjoint k a b h = bit_or-bitwise a (b * 2 ^ k) ∙ join_under a k a b (omega arith) h

-- The same with the upper bits on the left.
pub bit_or_disjoint_left : (k a b : ℕ) → a < 2 ^ k → bit_or (b * 2 ^ k) a ≡ a + b * 2 ^ k
bit_or_disjoint_left k a b h =
    bit_or-bitwise (b * 2 ^ k) a
    ∙ join_over (b * 2 ^ k) k (b * 2 ^ k) a b (omega arith) (omega arith) h
