-- ===== src/Network/Frame/Receiver.antt =====
-- What the other end makes of the bytes of a frame.
use infernum_data_pack.Base.{
  ℕ, zero, suc, ◌+◌, ◌-◌, ◌^◌, ◌≤◌, ◌<◌, ◌≡◌, true, List, ◌++◌, All, All-append, arith, length, ltb,
}
use infernum_data_pack.Network.Words.{IsByte}
use infernum_data_pack.Network.Memory.{
  load, store, le_bytes, length-le_bytes, le_bytes-IsByte, load-store_self,
}
use infernum_data_pack.Network.Xtea.{decrypt}
use infernum_data_pack.Network.Xtea.RoundTrip.{decrypt-encrypt}
use infernum_data_pack.Network.Adler.{adler_checksum}
use infernum_data_pack.Network.Message.{Message, fill, get, max_protocol_body_length}
use infernum_data_pack.Network.Message.RoundTrip.{Holds, Holds-split, moved, get_number}
use infernum_data_pack.Network.Connection.{check_packet}
use infernum_data_pack.Network.Protocol.{Protocol, xtea_decrypt, whole_blocks}
use infernum_data_pack.Network.Frame.Sender.{padding, plain_text, cipher_text, length-plain_text}

fill-IsByte : (n b : ℕ) → IsByte b → All IsByte (fill n b)
unfolding fill
fill-IsByte zero b h = tt
fill-IsByte (suc n) b h = (h, fill-IsByte n b h)

pub plain_text-IsByte : (payload : List ℕ) → All IsByte payload → All IsByte (plain_text payload)
unfolding plain_text
plain_text-IsByte payload h =
    All-append IsByte _ _ (All-append IsByte _ _ (le_bytes-IsByte 2 _) h)
      (fill-IsByte (padding (2 + length payload)) 0x33 (omega arith))

-- The checksum of a message that holds it in front of its data is accepted.
pub check_packet_of_Holds :
    (m : Message) (data_bytes : List ℕ)
    → m.position ≡ 2
    → m.length ≡ 6 + length data_bytes
    → 0 < length data_bytes
    → adler_checksum data_bytes < 256 ^ 4
    → Holds m (le_bytes 4 (adler_checksum data_bytes) ++ data_bytes)
    → check_packet m ≡ (moved m 4, true)
unfolding check_packet
check_packet_of_Holds m data_bytes at_two counted nonempty fits h =
    simp (longer, loaded, size, get_number 4 (adler_checksum data_bytes) m fits parts.0)
      (ground arith)
  where
    parts :
        Holds m (le_bytes 4 (adler_checksum data_bytes))
        × Holds (moved m (length (le_bytes 4 (adler_checksum data_bytes)))) data_bytes
    parts = Holds-split m (le_bytes 4 (adler_checksum data_bytes)) data_bytes h

    longer : ltb (m.position + 4) m.length ≡ true
    longer = ground arith

    size : m.length - m.position - 4 ≡ length data_bytes
    size = omega arith

    loaded : load m.buffer (m.position + 4) (length data_bytes) ≡ data_bytes
    loaded = (rw (length-le_bytes 4 (adler_checksum data_bytes)) at parts.1).bytes

-- The message that is left when a cipher text has been decrypted in place.
abbrev pub opened : Message → List ℕ → Message
opened m payload = record m {
  buffer = store m.buffer 6 (plain_text payload);
  position = 8;
  length = length payload;
}

pub opened-Holds :
    (m : Message) (payload : List ℕ)
    → length payload ≤ max_protocol_body_length
    → Holds
        (record m {
          buffer = store m.buffer 6 (plain_text payload);
          position = 6;
          length = 6 + length (plain_text payload);
        })
        (plain_text payload)
opened-Holds m payload small = record {
  bytes = load-store_self m.buffer 6 (plain_text payload);
  arrived = omega arith;
  inside = omega (arith, length-plain_text payload);
}

pub xtea_decrypt_of_Holds :
    (p q : Protocol) (m : Message) (payload : List ℕ)
    → q.key ≡ p.key
    → m.position ≡ 6
    → m.length ≡ 6 + length (plain_text payload)
    → length payload ≤ max_protocol_body_length
    → All IsByte payload
    → load m.buffer 6 (length (plain_text payload)) ≡ cipher_text p payload
    → xtea_decrypt q m ≡ (opened m payload, true)
unfolding xtea_decrypt
xtea_decrypt_of_Holds p q m payload same at_six counted small h loaded =
    simp (blocks, at_six, counted, size, loaded, decrypted, first) (ground (arith, roomy))
  where
    l : ℕ
    l = length payload

    blocks : whole_blocks (6 + length (plain_text payload)) ≡ true
    blocks = unfold whole_blocks in ground (arith, length-plain_text payload)

    size : 6 + length (plain_text payload) - 6 ≡ length (plain_text payload)
    size = omega arith

    decrypted : decrypt q.lanes (cipher_text p payload) q.key ≡ plain_text payload
    decrypted = rw same (
        unfold cipher_text in
        decrypt-encrypt p.lanes q.lanes p.key (plain_text payload) (plain_text-IsByte payload h))

    start : Message
    start = record m {
      buffer = store m.buffer 6 (plain_text payload);
      position = 6;
      length = 6 + length (plain_text payload);
    }

    outer :
        Holds start (le_bytes 2 l ++ payload)
        × Holds (moved start (length (le_bytes 2 l ++ payload))) (fill (padding (2 + l)) 0x33)
    outer =
        Holds-split start (le_bytes 2 l ++ payload) (fill (padding (2 + l)) 0x33)
          (unfold plain_text in opened-Holds m payload small)

    first : get 2 start ≡ (moved start 2, l)
    first = get_number 2 l start (omega arith) (Holds-split start (le_bytes 2 l) payload outer.0).0

    roomy : 8 + l ≤ 6 + length (plain_text payload)
    roomy = omega (arith, length-plain_text payload)
