-- ===== src/Network/Words.antt =====
-- Bytes and 32-bit words, little end first, as src/xtea.cpp and the `memcpy` of the message
-- classes read and write them.
use infernum_data_pack.Base.{ℕ, ◌+◌, ◌-◌, ◌*◌, ◌/◌, ◌%◌, ◌^◌, ◌<◌, ◌≡◌, ◌∙◌, bit_or, arith}
use infernum_data_pack.Base.Bits.{bit_or_disjoint}

abbrev pub IsByte : ℕ → Type 0
IsByte b = b < 256

abbrev pub IsU16 : ℕ → Type 0
IsU16 w = w < 65536

abbrev pub IsU32 : ℕ → Type 0
IsU32 w = w < 4294967296

-- uint32_t `a + b` and `a - b`.
unfoldable pub add32 : ℕ → ℕ → ℕ
add32 a b = (a + b) % 4294967296

unfoldable pub sub32 : ℕ → ℕ → ℕ
sub32 a b = (a + 4294967296 - b % 4294967296) % 4294967296

pub add32-IsU32 : (a b : ℕ) → IsU32 (add32 a b)
unfolding add32
add32-IsU32 a b = omega arith

pub sub32-IsU32 : (a b : ℕ) → IsU32 (sub32 a b)
unfolding sub32
sub32-IsU32 a b = omega arith

-- What is added, whatever its size, is taken away again.
pub sub32-add32 : (a b : ℕ) → IsU32 a → sub32 (add32 a b) b ≡ a
unfolding add32 sub32
sub32-add32 a b h = omega arith

pub add32-sub32 : (a b : ℕ) → IsU32 a → add32 (sub32 a b) b ≡ a
unfolding add32 sub32
add32-sub32 a b h = omega arith

-- `b0 | b1 << 8u | b2 << 16u | b3 << 24u`
unfoldable pub word_of : ℕ → ℕ → ℕ → ℕ → ℕ
word_of b0 b1 b2 b3 =
    bit_or (bit_or (bit_or b0 (b1 * 2 ^ 8)) (b2 * 2 ^ 16)) (b3 * 2 ^ 24) % 4294967296

-- `static_cast<uint8_t>(w >> 8 * i)` for `i` from 0 to 3.
unfoldable pub byte_at : ℕ → ℕ → ℕ
byte_at w i = w / 256 ^ i % 256

pub word_of-sum :
    (b0 b1 b2 b3 : ℕ)
    → IsByte b0
    → IsByte b1
    → IsByte b2
    → IsByte b3
    → word_of b0 b1 b2 b3 ≡ b0 + b1 * 256 + b2 * 65536 + b3 * 16777216
unfolding word_of
word_of-sum b0 b1 b2 b3 h0 h1 h2 h3 = omega (arith, or1, or2, or3)
  where
    or1 : bit_or b0 (b1 * 2 ^ 8) ≡ b0 + b1 * 256
    or1 = bit_or_disjoint 8 b0 b1 (omega arith)

    or2 : bit_or (bit_or b0 (b1 * 2 ^ 8)) (b2 * 2 ^ 16) ≡ b0 + b1 * 256 + b2 * 65536
    or2 = omega (arith, or1, bit_or_disjoint 16 (bit_or b0 (b1 * 2 ^ 8)) b2 (omega (arith, or1)))

    or3 :
        bit_or (bit_or (bit_or b0 (b1 * 2 ^ 8)) (b2 * 2 ^ 16)) (b3 * 2 ^ 24)
        ≡ b0 + b1 * 256 + b2 * 65536 + b3 * 16777216
    or3 = omega (
      arith,
      or2,
      bit_or_disjoint 24 (bit_or (bit_or b0 (b1 * 2 ^ 8)) (b2 * 2 ^ 16)) b3 (omega (arith, or2)),
    )

pub word_of-IsU32 : (b0 b1 b2 b3 : ℕ) → IsU32 (word_of b0 b1 b2 b3)
unfolding word_of
word_of-IsU32 b0 b1 b2 b3 = omega arith

pub byte_at-IsByte : (w i : ℕ) → IsByte (byte_at w i)
unfolding byte_at
byte_at-IsByte w i = omega arith

-- A word is what its four bytes say.
pub word_of-byte_at :
    (w : ℕ) → IsU32 w → word_of (byte_at w 0) (byte_at w 1) (byte_at w 2) (byte_at w 3) ≡ w
word_of-byte_at w h =
    word_of-sum _ _ _ _ (byte_at-IsByte w 0) (byte_at-IsByte w 1) (byte_at-IsByte w 2)
      (byte_at-IsByte w 3)
    ∙ unfold byte_at in omega arith

-- The bytes of a word that four bytes make are those four.
pub byte_at-word_of :
    (b0 b1 b2 b3 : ℕ)
    → IsByte b0
    → IsByte b1
    → IsByte b2
    → IsByte b3
    → let w = word_of b0 b1 b2 b3 in
      (byte_at w 0 ≡ b0) × (byte_at w 1 ≡ b1) × (byte_at w 2 ≡ b2) × (byte_at w 3 ≡ b3)
unfolding byte_at
byte_at-word_of b0 b1 b2 b3 h0 h1 h2 h3 = omega (arith, word_of-sum b0 b1 b2 b3 h0 h1 h2 h3)
