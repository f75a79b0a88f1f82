-- ===== src/Network/Frame/Delivery.antt =====
-- A frame from the sender's buffer to the receiver's.
use infernum_data_pack.Base.{
  ℕ, ◌+◌, ◌/◌, ◌%◌, ◌^◌, ◌≤◌, ◌<◌, ◌≡◌, refl, ap, ◌∙◌, true, false, List, [], ◌∷◌, ◌++◌, some, All,
  arith, length, ltb, take, drop, take-append, drop-append,
}
use infernum_data_pack.Base.Bits.{bit_or_disjoint}
use infernum_data_pack.Network.Words.{IsByte, IsU16}
use infernum_data_pack.Network.Memory.{load, store, le_bytes, length-le_bytes, load-store_self}
use infernum_data_pack.Network.Xtea.RoundTrip.{length-encrypt, encrypt-IsByte}
use infernum_data_pack.Network.Adler.{adler_checksum}
use infernum_data_pack.Network.Adler.Exact.{adler_checksum-lt}
use infernum_data_pack.Network.Message.{
  Message, max_protocol_body_length, get_length_header, get_body_buffer,
}
use infernum_data_pack.Network.Message.RoundTrip.{Holds, Holds-split, moved}
use infernum_data_pack.Network.Connection.{
  Connection, read_body, count_packet, start_body, parse_header, check_packet, receive, time_passed,
  u32,
}
use infernum_data_pack.Network.Protocol.{Protocol, xtea_decrypt, on_recv_message}
use infernum_data_pack.Network.Frame.{take_body, after_header, deliver}
use infernum_data_pack.Network.Frame.Sender.{
  padding, plain_text, cipher_text, frame_body, length-plain_text, length-frame_body,
}
use infernum_data_pack.Network.Frame.Receiver.{
  check_packet_of_Holds, opened, xtea_decrypt_of_Holds, plain_text-IsByte,
}

-- A protocol that reads what `p` sends.
pub record Understands (q p : Protocol) : Type 0 where
  pub decrypts : q.encryption_enabled ≡ true
  pub same_key : q.key ≡ p.key

-- The message in the receiver's buffer when the body has been read, and its checksum.
abbrev pub received : Message → List ℕ → Message
received m body = moved (receive 2 body m) 4

length-cipher_text :
    (p : Protocol) (payload : List ℕ) → length (cipher_text p payload) ≡ length (plain_text payload)
unfolding cipher_text
length-cipher_text p payload = length-encrypt p.lanes p.key (plain_text payload)

pub take_body_of_frame :
    (p q : Protocol) (m : Message) (payload : List ℕ)
    → Understands q p
    → m.position ≡ 2
    → m.length ≡ 2 + length (frame_body p payload)
    → length payload ≤ max_protocol_body_length
    → All IsByte payload
    → take_body q m (frame_body p payload)
      ≡ some (opened (received m (frame_body p payload)) payload)
unfolding take_body on_recv_message
take_body_of_frame p q m payload u at_two counted small h = simp (checked, u.decrypts, decrypted)
  where
    body : List ℕ
    body = frame_body p payload

    n : ℕ
    n = adler_checksum (cipher_text p payload)

    lc : length (cipher_text p payload) ≡ 2 + length payload + padding (2 + length payload)
    lc = length-cipher_text p payload ∙ length-plain_text payload

    fits : n < 256 ^ 4
    fits =
        adler_checksum-lt (cipher_text p payload)
          (unfold cipher_text in
            encrypt-IsByte p.lanes p.key (plain_text payload) (plain_text-IsByte payload h))
          (omega (arith, lc))

    holds : Holds (receive 2 body m) (le_bytes 4 n ++ cipher_text p payload)
    holds =
        unfold receive frame_body in
        record {
          bytes = rw at_two (load-store_self m.buffer 2 (frame_body p payload));
          arrived = omega arith;
          inside = omega (arith, length-frame_body p payload);
        }

    parts :
        Holds (receive 2 body m) (le_bytes 4 n)
        × Holds (moved (receive 2 body m) (length (le_bytes 4 n))) (cipher_text p payload)
    parts = Holds-split (receive 2 body m) (le_bytes 4 n) (cipher_text p payload) holds

    checked : check_packet (receive 2 body m) ≡ (received m body, true)
    checked =
        unfold receive in
        check_packet_of_Holds (receive 2 body m) (cipher_text p payload) at_two
          (omega (arith, counted, lc, length-frame_body p payload)) (omega (arith, lc)) fits holds

    loaded : load (receive 2 body m).buffer 6 (length (plain_text payload)) ≡ cipher_text p payload
    loaded =
        unfold receive in
        simp (length-le_bytes 4 n, at_two, length-cipher_text p payload) at (parts.1.bytes)

    decrypted : xtea_decrypt q (received m body) ≡ (opened (received m body) payload, true)
    decrypted =
        unfold receive in
        xtea_decrypt_of_Holds p q (received m body) payload u.same_key (omega (arith, at_two))
          (omega (arith, counted, length-plain_text payload, length-frame_body p payload)) small h
          loaded

length_header :
    (m : Message) (size : ℕ) → IsU16 size → get_length_header (receive 0 (le_bytes 2 size) m) ≡ size
unfolding get_length_header receive store le_bytes
length_header m size h =
    rw (bit_or_disjoint 8 (size % 256) (size / 256 % 256) (omega arith)) (omega arith)

-- The packet that arrives now does not exceed the rate that the configuration allows.
abbrev pub IsInRate : ℕ → ℕ → Connection → Type 0
IsInRate max_packets now c = u32 (c.packets_sent + 1) / time_passed c now ≤ max_packets

start_body_sized :
    (c : Connection) (size : ℕ)
    → get_length_header c.message ≡ size
    → 0 < size
    → size < 24574
    → start_body c ≡ (
      record c { message = record (c.message) { length = size + 2; position = 2 } },
      read_body size,
    )
unfolding start_body get_body_buffer
start_body_sized c size e positive small = simp e (ground arith)

parse_header_passes :
    (c : Connection) (max_packets now : ℕ)
    → c.is_open ≡ true
    → IsInRate max_packets now c
    → parse_header max_packets now false c ≡ start_body (count_packet c now)
unfolding parse_header
parse_header_passes c max_packets now is_open rate = simp (is_open, within)
  where
    within : ltb max_packets (u32 (c.packets_sent + 1) / time_passed c now) ≡ false
    within = ground arith

count_packet-message : (c : Connection) (now : ℕ) → (count_packet c now).message ≡ c.message
unfolding count_packet
count_packet-message c now = ground arith

-- The message that waits for a body of `size` bytes.
abbrev pub waiting : Message → ℕ → Message
waiting m size = record (receive 0 (le_bytes 2 size) m) { length = size + 2; position = 2 }

parse_header_of_frame :
    (p : Protocol) (rest : List ℕ) (c : Connection) (max_packets now size : ℕ)
    → c.is_open ≡ true
    → IsInRate max_packets now c
    → 0 < size
    → size < 24574
    → after_header p rest (
        parse_header max_packets now false
          (record c { message = receive 0 (le_bytes 2 size) c.message }))
      ≡ take_body p (waiting c.message size) (take size rest)
unfolding after_header
parse_header_of_frame p rest c max_packets now size is_open rate positive small =
    rw
      (
        parse_header_passes start max_packets now is_open (unfold time_passed in rate),
        start_body_sized (count_packet start now) size header positive small,
      )
      (ap
        (λ (m : Message).
          take_body p (record m { length = size + 2; position = 2 }) (take size rest))
        (count_packet-message start now))
  where
    start : Connection
    start = record c { message = receive 0 (le_bytes 2 size) c.message }

    header : get_length_header (count_packet start now).message ≡ size
    header = rw (count_packet-message start now) (length_header c.message size (omega arith))

take_all {ℓ} : {A : Type ℓ} (xs : List A) → take (length xs) xs ≡ xs
take_all [] = refl
take_all (x ∷ xs) = ap (◌∷◌ x) (take_all xs)

pub deliver_wire :
    (q : Protocol) (c : Connection) (max_packets now : ℕ) (body : List ℕ)
    → c.is_open ≡ true
    → IsInRate max_packets now c
    → 0 < length body
    → length body < 24574
    → deliver q max_packets now c (le_bytes 2 (length body) ++ body)
      ≡ take_body q (waiting c.message (length body)) body
unfolding deliver
deliver_wire q c max_packets now body is_open rate positive small =
    rw (front, back)
      (parse_header_of_frame q body c max_packets now (length body) is_open rate positive small
        ∙ ap (take_body q (waiting c.message (length body))) (take_all body))
  where
    head : List ℕ
    head = le_bytes 2 (length body)

    l : length head ≡ 2
    l = length-le_bytes 2 (length body)

    front : take 2 (head ++ body) ≡ head
    front = rw l at (take-append head body)

    back : drop 2 (head ++ body) ≡ body
    back = rw l at (drop-append head body)
