-- ===== src/Network/Xtea/RoundTrip.antt =====
-- Decryption gives back what encryption took, for the whole of a region.
use infernum_data_pack.Base.{ℕ, suc, ◌≡◌, refl, ap, true, false, List, [], ◌∷◌, All, length}
use infernum_data_pack.Network.Words.{
  IsByte, word_of, byte_at, word_of-IsU32, word_of-byte_at, byte_at-word_of, byte_at-IsByte,
}
use infernum_data_pack.Network.Xtea.{Key, Block, encrypt, decrypt}
use infernum_data_pack.Network.Xtea.Rounds.{
  IsWords, encrypt_rounds-IsWords, decrypt_rounds-encrypt_rounds,
}
use infernum_data_pack.Network.Xtea.Blocks.{
  blockwise, lane, encrypt_rounds-map, decrypt_rounds-map, xtea-blockwise,
}

lane-IsWords : (k : Key) (b : Block) → IsWords b → IsWords (lane true k b)
unfolding lane
lane-IsWords k b w =
    (rw (encrypt_rounds-map k 32 0 (b ∷ [])) at (encrypt_rounds-IsWords k 32 0 (b ∷ []) (w, tt))).0

first_or : Block → List Block → Block
first_or b [] = b
first_or b (c ∷ cs) = c

lane_undone : (k : Key) (b : Block) → IsWords b → lane false k (lane true k b) ≡ b
unfolding lane first_or
lane_undone k b w = ap (first_or b) (
    rw (encrypt_rounds-map k 32 0 (b ∷ []), decrypt_rounds-map) at
      (decrypt_rounds-encrypt_rounds k (b ∷ []) (w, tt)))

block_of_bytes-IsWords :
    (b0 b1 b2 b3 b4 b5 b6 b7 : ℕ)
    → IsWords (record { left = word_of b0 b1 b2 b3; right = word_of b4 b5 b6 b7 })
block_of_bytes-IsWords b0 b1 b2 b3 b4 b5 b6 b7 = record {
  left_fits = word_of-IsU32 b0 b1 b2 b3;
  right_fits = word_of-IsU32 b4 b5 b6 b7;
}

blockwise_undone :
    (k : Key) (xs : List ℕ)
    → All IsByte xs
    → blockwise (lane false k) (blockwise (lane true k) xs) ≡ xs
unfolding blockwise
blockwise_undone k (b0 ∷ b1 ∷ b2 ∷ b3 ∷ b4 ∷ b5 ∷ b6 ∷ b7 ∷ rest) h =
    rw
      (
        word_of-byte_at _ coded.left_fits,
        word_of-byte_at _ coded.right_fits,
        lane_undone k plain words,
        l.0,
        l.1,
        l.2,
        l.3,
        r.0,
        r.1,
        r.2,
        r.3,
        blockwise_undone k rest h.1.1.1.1.1.1.1.1,
      )
      refl
  where
    plain : Block
    plain = record { left = word_of b0 b1 b2 b3; right = word_of b4 b5 b6 b7 }

    words : IsWords plain
    words = block_of_bytes-IsWords b0 b1 b2 b3 b4 b5 b6 b7

    coded : IsWords (lane true k plain)
    coded = lane-IsWords k plain words

    l :
        (byte_at plain.left 0 ≡ b0)
        × (byte_at plain.left 1 ≡ b1)
        × (byte_at plain.left 2 ≡ b2)
        × (byte_at plain.left 3 ≡ b3)
    l = byte_at-word_of b0 b1 b2 b3 h.0 h.1.0 h.1.1.0 h.1.1.1.0

    r :
        (byte_at plain.right 0 ≡ b4)
        × (byte_at plain.right 1 ≡ b5)
        × (byte_at plain.right 2 ≡ b6)
        × (byte_at plain.right 3 ≡ b7)
    r = byte_at-word_of b4 b5 b6 b7 h.1.1.1.1.0 h.1.1.1.1.1.0 h.1.1.1.1.1.1.0 h.1.1.1.1.1.1.1.0
blockwise_undone k short h = refl

length-blockwise : (g : Block → Block) (xs : List ℕ) → length (blockwise g xs) ≡ length xs
unfolding blockwise
length-blockwise g (b0 ∷ b1 ∷ b2 ∷ b3 ∷ b4 ∷ b5 ∷ b6 ∷ b7 ∷ rest) =
    ap (λ (n : ℕ). suc (suc (suc (suc (suc (suc (suc (suc n)))))))) (length-blockwise g rest)
length-blockwise g short = refl

blockwise-IsByte : (g : Block → Block) (xs : List ℕ) → All IsByte xs → All IsByte (blockwise g xs)
unfolding blockwise
blockwise-IsByte g (b0 ∷ b1 ∷ b2 ∷ b3 ∷ b4 ∷ b5 ∷ b6 ∷ b7 ∷ rest) h = (
  byte_at-IsByte _ _,
  (
    byte_at-IsByte _ _,
    (
      byte_at-IsByte _ _,
      (
        byte_at-IsByte _ _,
        (
          byte_at-IsByte _ _,
          (
            byte_at-IsByte _ _,
            (byte_at-IsByte _ _, (byte_at-IsByte _ _, blockwise-IsByte g rest h.1.1.1.1.1.1.1.1)),
          ),
        ),
      ),
    ),
  ),
)
blockwise-IsByte g short h = h

-- Whatever lane counts `2 ^ e` and `2 ^ d` the two builds use, `decrypt` under the same key gives
-- back every region of bytes that `encrypt` took, of any length.
pub decrypt-encrypt :
    (e d : ℕ) (k : Key) (bytes : List ℕ)
    → All IsByte bytes
    → decrypt d (encrypt e bytes k) k ≡ bytes
unfolding encrypt decrypt
decrypt-encrypt e d k bytes h =
    rw (xtea-blockwise true e k bytes, xtea-blockwise false d k _) (blockwise_undone k bytes h)

pub length-encrypt : (e : ℕ) (k : Key) (bytes : List ℕ) → length (encrypt e bytes k) ≡ length bytes
unfolding encrypt
length-encrypt e k bytes = rw (xtea-blockwise true e k bytes) (length-blockwise _ bytes)

pub length-decrypt : (e : ℕ) (k : Key) (bytes : List ℕ) → length (decrypt e bytes k) ≡ length bytes
unfolding decrypt
length-decrypt e k bytes = rw (xtea-blockwise false e k bytes) (length-blockwise _ bytes)

pub encrypt-IsByte :
    (e : ℕ) (k : Key) (bytes : List ℕ) → All IsByte bytes → All IsByte (encrypt e bytes k)
unfolding encrypt
encrypt-IsByte e k bytes h = rw (xtea-blockwise true e k bytes) (blockwise-IsByte _ bytes h)
