-- ===== src/Network/Adler.antt =====
-- `adlerChecksum` of src/tools.cpp.
pub mod Exact
use infernum_data_pack.Base.{
  ℕ, zero, suc, ◌*◌, ◌%◌, ◌^◌, List, [], ◌∷◌, length, take, drop, ltb, if◌then◌else◌, bit_or,
}
use infernum_data_pack.Network.Words.{add32}
use infernum_data_pack.Network.Message.{network_message_max_size}

abbrev pub adler : ℕ
adler = 65521

-- The inner loop: `a += *data++; b += a;` on 32-bit words.
unfoldable pub add_chunk : List ℕ → ℕ → ℕ → ℕ × ℕ
add_chunk [] a b = (a, b)
add_chunk (d ∷ ds) a b = let a' = add32 a d in add_chunk ds a' (add32 b a')

-- The outer loop takes at most 5552 bytes a round and reduces after each. A round takes a byte at
-- least, so that the length of the data is fuel enough.
unfoldable pub add_chunks : ℕ → List ℕ → ℕ → ℕ → ℕ × ℕ
add_chunks fuel [] a b = (a, b)
add_chunks zero (d ∷ ds) a b = (a, b)
add_chunks (suc fuel) (d ∷ ds) a b =
    let (a', b') = add_chunk (take 5552 (d ∷ ds)) a b in
    add_chunks fuel (drop 5552 (d ∷ ds)) (a' % adler) (b' % adler)

unfoldable pub adler_checksum : List ℕ → ℕ
adler_checksum bytes =
    if ltb network_message_max_size (length bytes)
    then 0
    else (let (a, b) = add_chunks (length bytes) bytes 1 0 in bit_or (b * 2 ^ 16 % 4294967296) a)
