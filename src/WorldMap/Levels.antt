-- ===== src/WorldMap/Levels.antt =====
-- The two bits that each level of the quad tree reads, and the coordinates that lead to one leaf.
use infernum_data_pack.Base.{
  ℕ, zero, suc, ◌+◌, ◌*◌, ◌/◌, ◌%◌, ◌^◌, ◌<◌, ◌≡◌, refl, ap₂, ◌∙◌, ◌⊎◌, inl, inr, ==_self, Bool,
  true, false, arith, ◌==◌, ◌&&◌,
}
use native.Mathlib.Nat.{pow-suc}
use infernum_data_pack.WorldMap.{is_high, same_bit, levels}

-- Whether two coordinates take the same way on `n` levels.
unfoldable pub agree : ℕ → ℕ → ℕ → Bool
agree zero x u = true
agree (suc n) x u = same_bit (is_high x) (is_high u) && agree n (x * 2) (u * 2)

-- The number that the bits of `n` levels make.
top : ℕ → ℕ → ℕ
top zero x = 0
top (suc n) x = x / 32768 % 2 * 2 ^ n + top n (x * 2)

bit_cases :
    (x : ℕ)
    → ((is_high x ≡ true) × (x / 32768 % 2 ≡ 1)) ⊎ ((is_high x ≡ false) × (x / 32768 % 2 ≡ 0))
unfolding is_high
bit_cases x = ground arith

top_high : (n x : ℕ) → x / 32768 % 2 ≡ 1 → top (suc n) x ≡ 2 ^ n + top n (x * 2)
unfolding top
top_high n x h = rw h (omega arith)

top_low : (n x : ℕ) → x / 32768 % 2 ≡ 0 → top (suc n) x ≡ top n (x * 2)
unfolding top
top_low n x h = rw h (omega arith)

top-lt : (n x : ℕ) → top n x < 2 ^ n
top-lt zero x = unfold top in omega arith
top-lt (suc n) x = elim (bit_cases x) [
  | inl (h, e) ↦ omega (arith, top-lt n (x * 2), pow-suc 2 n, top_high n x e)
  | inr (h, e) ↦ omega (arith, top-lt n (x * 2), pow-suc 2 n, top_low n x e)
]

-- Two coordinates take the same way exactly if their upper bits are the same number.
agree-top : (n x u : ℕ) → agree n x u ≡ (top n x == top n u)
unfolding agree
agree-top zero x u = unfold top in refl
agree-top (suc n) x u = elim (bit_cases x) [
  | inl (h, e) ↦ elim (bit_cases u) [
    | inl (k, f) ↦
        simp (h, k) (ground (arith, agree-top n (x * 2) (u * 2), top_high n x e, top_high n u f))
    | inr (k, f) ↦ simp (h, k) (ground (arith, top_high n x e, top_low n u f, top-lt n (u * 2)))
  ]
  | inr (h, e) ↦ elim (bit_cases u) [
    | inl (k, f) ↦ simp (h, k) (ground (arith, top_low n x e, top_high n u f, top-lt n (x * 2)))
    | inr (k, f) ↦
        simp (h, k) (ground (arith, agree-top n (x * 2) (u * 2), top_low n x e, top_low n u f))
  ]
]

top-levels : (x : ℕ) → x < 65536 → top levels x ≡ x / 8
unfolding top
top-levels x h = omega arith

-- On all the levels two coordinates agree exactly if they lie on the same floor of eight.
pub agree-levels : (x u : ℕ) → x < 65536 → u < 65536 → agree levels x u ≡ (x / 8 == u / 8)
agree-levels x u h k = agree-top levels x u ∙ ap₂ ◌==◌ (top-levels x h) (top-levels u k)

pub agree_self : (n x : ℕ) → agree n x x ≡ true
agree_self n x = agree-top n x x ∙ ==_self (top n x)
