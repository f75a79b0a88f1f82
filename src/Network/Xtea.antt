-- ===== src/Network/Xtea.antt =====
-- src/xtea.cpp: XTEA in the electronic codebook mode, several blocks at a time. A region of
-- memory is the list of its bytes.
pub mod Rounds
pub mod Blocks
pub mod RoundTrip
use infernum_data_pack.Base.{
  ℕ, zero, suc, ◌*◌, ◌/◌, ◌%◌, ◌^◌, Bool, true, false, List, [], ◌∷◌, ◌++◌, map, take, drop, length,
  bit_and, bit_xor,
}
use infernum_data_pack.Network.Words.{add32, sub32, word_of, byte_at}

abbrev pub delta : ℕ
delta = 0x9E3779B9

-- `xtea::key`, a `std::array<uint32_t, 4>`.
pub record Key : Type 0 where
  pub k0 : ℕ
  pub k1 : ℕ
  pub k2 : ℕ
  pub k3 : ℕ

-- `k[i]`, which the code calls with `i` below 4 only.
unfoldable pub key_at : Key → ℕ → ℕ
key_at k zero = k.k0
key_at k (suc zero) = k.k1
key_at k (suc (suc zero)) = k.k2
key_at k (suc (suc (suc i))) = k.k3

-- One lane: `left[j]` and `right[j]`.
pub record Block : Type 0 where
  pub left : ℕ
  pub right : ℕ

-- `((w << 4) ^ (w >> 5)) + w`
unfoldable pub scramble : ℕ → ℕ
scramble w = add32 (bit_xor (w * 2 ^ 4 % 4294967296) (w / 2 ^ 5)) w

-- What a half round adds to one half, from the other half.
unfoldable pub left_term : Key → ℕ → ℕ → ℕ
left_term k sum right = bit_xor (scramble right) (add32 sum (key_at k (bit_and sum 3)))

unfoldable pub right_term : Key → ℕ → ℕ → ℕ
right_term k sum left = bit_xor (scramble left) (add32 sum (key_at k (bit_and (sum / 2 ^ 11) 3)))

-- The two inner loops of `XTEA_encrypt`, one step of each loop.
unfoldable pub encrypt_left : Key → ℕ → Block → Block
encrypt_left k sum b = record b { left = add32 b.left (left_term k sum b.right) }

unfoldable pub encrypt_right : Key → ℕ → Block → Block
encrypt_right k sum b = record b { right = add32 b.right (right_term k sum b.left) }

unfoldable pub decrypt_right : Key → ℕ → Block → Block
decrypt_right k sum b = record b { right = sub32 b.right (right_term k sum b.left) }

unfoldable pub decrypt_left : Key → ℕ → Block → Block
decrypt_left k sum b = record b { left = sub32 b.left (left_term k sum b.right) }

-- `for (i = 0u; i < 32; ++i)`: the first argument counts the rounds left.
unfoldable pub encrypt_rounds : Key → ℕ → ℕ → List Block → List Block
encrypt_rounds k zero sum bs = bs
encrypt_rounds k (suc n) sum bs =
    let lefts = map (encrypt_left k sum) bs in
    let sum' = add32 sum delta in encrypt_rounds k n sum' (map (encrypt_right k sum') lefts)

unfoldable pub decrypt_rounds : Key → ℕ → ℕ → List Block → List Block
decrypt_rounds k zero sum bs = bs
decrypt_rounds k (suc n) sum bs =
    let rights = map (decrypt_right k sum) bs in
    let sum' = sub32 sum delta in decrypt_rounds k n sum' (map (decrypt_left k sum') rights)

-- The loop that fills `left` and `right`.
unfoldable pub load_blocks : ℕ → List ℕ → List Block
load_blocks (suc n) (b0 ∷ b1 ∷ b2 ∷ b3 ∷ b4 ∷ b5 ∷ b6 ∷ b7 ∷ rest) =
    record { left = word_of b0 b1 b2 b3; right = word_of b4 b5 b6 b7 } ∷ load_blocks n rest
load_blocks _ _ = []

-- The loop that writes the lanes back.
unfoldable pub store_blocks : List Block → List ℕ
store_blocks [] = []
store_blocks (b ∷ bs) =
    byte_at b.left 0
    ∷ byte_at b.left 1
    ∷ byte_at b.left 2
    ∷ byte_at b.left 3
    ∷ byte_at b.right 0
    ∷ byte_at b.right 1
    ∷ byte_at b.right 2
    ∷ byte_at b.right 3
    ∷ store_blocks bs

-- `XTEA_encrypt<BLOCK_SIZE>` and `XTEA_decrypt<BLOCK_SIZE>` on `BLOCK_SIZE * 8` bytes.
unfoldable pub xtea_encrypt : ℕ → Key → List ℕ → List ℕ
xtea_encrypt block_size k bytes =
    store_blocks (encrypt_rounds k 32 0 (load_blocks block_size bytes))

unfoldable pub xtea_decrypt : ℕ → Key → List ℕ → List ℕ
xtea_decrypt block_size k bytes =
    store_blocks (decrypt_rounds k 32 (delta * 2 ^ 5 % 4294967296) (load_blocks block_size bytes))

unfoldable pub crypt : Bool → ℕ → Key → List ℕ → List ℕ
crypt true = xtea_encrypt
crypt false = xtea_decrypt

-- The loop over `blocks` bytes in steps, in place; the first argument counts the steps left.
unfoldable pub each_step : ℕ → ℕ → (List ℕ → List ℕ) → List ℕ → List ℕ
each_step zero step f bytes = bytes
each_step (suc n) step f bytes = f (take step bytes) ++ each_step n step f (drop step bytes)

-- `XTEA<Encrypt, BlockSize>::operator()` for `BlockSize = 2 ^ e`, which every `InitialBlockSize` is;
-- `(BlockSize + 1u) / 2u` is then `2 ^ (e - 1)`, and `length & ~(step - 1)` is the largest multiple
-- of `step` up to `length`.
unfoldable pub xtea : Bool → ℕ → Key → List ℕ → List ℕ
xtea encrypting zero k bytes =
    let n = length bytes / 8 in
    each_step n 8 (crypt encrypting 1 k) (take (n * 8) bytes) ++ drop (n * 8) bytes
xtea encrypting (suc e) k bytes =
    let step = 2 ^ suc e * 8 in
    let n = length bytes / step in
    each_step n step (crypt encrypting (2 ^ suc e) k) (take (n * step) bytes)
    ++ xtea encrypting e k (drop (n * step) bytes)

-- `InitialBlockSize` is `2 ^ e` for an `e` that the build chooses: 7, 5, 3, 1 or 0.
unfoldable pub encrypt : ℕ → List ℕ → Key → List ℕ
encrypt e bytes k = xtea true e k bytes

unfoldable pub decrypt : ℕ → List ℕ → Key → List ℕ
decrypt e bytes k = xtea false e k bytes
