-- ===== src/Network/Frame/Sender.antt =====
-- The bytes that a protocol sends.
use infernum_data_pack.Base.{
  ℕ, zero, suc, ◌+◌, ◌-◌, ◌%◌, ◌<◌, ◌≤◌, ◌≡◌, refl, sym, ap, ap₂, ◌∙◌, inl, inr, true, false, List,
  ◌++◌, arith, length, length-append, ◌==◌, ltb, Bool-cases, append-nil,
}
use infernum_data_pack.Network.Memory.{
  load, store, le_bytes, length-le_bytes, load-append, load-store_self, load-store_after,
  load-store_before,
}
use infernum_data_pack.Network.Xtea.{encrypt}
use infernum_data_pack.Network.Xtea.RoundTrip.{length-encrypt}
use infernum_data_pack.Network.Adler.{adler_checksum}
use infernum_data_pack.Network.Message.{
  max_body_length, fill, can_add, u16, max_protocol_body_length,
}
use infernum_data_pack.Network.Output.{
  OutputMessage, add_header, write_message_length, add_crypto_header,
}
use infernum_data_pack.Network.Protocol.{Protocol, pad, xtea_encrypt, on_send_message}

-- How much padding a message of `n` bytes gets.
abbrev pub padding : ℕ → ℕ
padding n = (8 - n % 8) % 8

pub length-fill : (n b : ℕ) → length (fill n b) ≡ n
unfolding fill
length-fill zero b = refl
length-fill (suc n) b = ap suc (length-fill n b)

-- What is sent from `o`: the bytes `bs`, from offset `start` on.
pub record Sends (o : OutputMessage) (start : ℕ) (bs : List ℕ) : Type 0 where
  pub starts : o.output_buffer_start ≡ start
  pub counted : o.length ≡ length bs
  pub bytes : load o.buffer start (length bs) ≡ bs

add_header-Sends :
    (size v : ℕ) (o : OutputMessage) (start : ℕ) (bs : List ℕ)
    → Sends o (start + size) bs
    → start + size + length bs < 65536
    → Sends (add_header size v o) start (le_bytes size v ++ bs)
unfolding add_header
add_header-Sends size v o start bs s h = record {
  starts = omega (arith, s.starts);
  counted = omega (arith, s.counted, l);
  bytes = rw (at_start, l) loaded;
}
  where
    head : List ℕ
    head = le_bytes size v

    l : length (head ++ bs) ≡ size + length bs
    l = omega (arith, length-append head bs, length-le_bytes size v)

    at_start : (o.output_buffer_start + 65536 - size) % 65536 ≡ start
    at_start = omega (arith, s.starts)

    loaded : load (store o.buffer start head) start (size + length bs) ≡ head ++ bs
    loaded =
        load-append _ start size (length bs)
        ∙ ap₂ ◌++◌
            (ap (load (store o.buffer start head) start) (sym (length-le_bytes size v))
              ∙ load-store_self o.buffer start head)
            (load-store_after o.buffer (start + size) (length bs) start head
                (omega (arith, length-le_bytes size v))
              ∙ s.bytes)

-- Bytes written at the end of the body are sent after it.
extended-Sends :
    (o : OutputMessage) (start : ℕ) (bs cs : List ℕ)
    → Sends o start bs
    → o.position ≡ start + length bs
    → start + length bs + length cs < 65536
    → Sends
        (record o {
          message = record (o.message) {
            buffer = store o.buffer o.position cs;
            length = u16 (o.length + length cs);
          };
        })
        start
        (bs ++ cs)
extended-Sends o start bs cs s p h = record {
  starts = s.starts;
  counted = omega (arith, s.counted, length-append bs cs);
  bytes = rw (length-append bs cs, p) loaded;
}
  where
    end : ℕ
    end = start + length bs

    loaded : load (store o.buffer end cs) start (length bs + length cs) ≡ bs ++ cs
    loaded =
        load-append _ start (length bs) (length cs)
        ∙ ap₂ ◌++◌ (load-store_before o.buffer start (length bs) end cs (omega arith) ∙ s.bytes)
            (load-store_self o.buffer end cs)

-- The padding makes whole blocks of eight, where there is room for it.
pad-Sends :
    (o : OutputMessage) (start : ℕ) (bs : List ℕ)
    → Sends o start bs
    → o.position ≡ start + length bs
    → o.position + padding (length bs) < max_body_length
    → Sends (pad o) start (bs ++ fill (padding (length bs)) 0x33)
unfolding pad can_add
pad-Sends o start bs s p h = elim (Bool-cases (o.length % 8 == 0)) [
  | inl e ↦
      let none_left : padding (length bs) ≡ 0 = ground (arith, s.counted) in
      rw (e, none_left) (unfold fill in rw (append-nil bs) s)
  | inr e ↦
      let some_left : padding (length bs) ≡ 8 - o.length % 8 = ground (arith, s.counted) in
      let room : ltb (8 - o.length % 8 + o.position) max_body_length ≡ true = ground arith in
      rw (e, room, some_left)
        (rw (length-fill (8 - o.length % 8) 0x33) at (
          extended-Sends o start bs (fill (8 - o.length % 8) 0x33) s p
            (omega (arith, length-fill (8 - o.length % 8) 0x33))))
]

encrypt-Sends :
    (p : Protocol) (o : OutputMessage) (start : ℕ) (bs : List ℕ)
    → Sends (pad o) start bs
    → Sends (xtea_encrypt p o) start (encrypt p.lanes bs p.key)
unfolding xtea_encrypt
encrypt-Sends p o start bs s =
    rw (s.starts, s.counted, s.bytes)
      (record {
        starts = refl;
        counted = sym (length-encrypt p.lanes p.key bs);
        bytes = load-store_self _ start (encrypt p.lanes bs p.key);
      })

-- The plain text of a frame: the length of the payload, the payload, and padding to whole blocks.
unfoldable pub plain_text : List ℕ → List ℕ
plain_text payload =
    (le_bytes 2 (length payload) ++ payload) ++ fill (padding (2 + length payload)) 0x33

unfoldable pub cipher_text : Protocol → List ℕ → List ℕ
cipher_text p payload = encrypt p.lanes (plain_text payload) p.key

-- What follows the length of a frame: the checksum of the cipher text, and the cipher text.
unfoldable pub frame_body : Protocol → List ℕ → List ℕ
frame_body p payload = le_bytes 4 (adler_checksum (cipher_text p payload)) ++ cipher_text p payload

pub length-plain_text :
    (payload : List ℕ)
    → length (plain_text payload) ≡ 2 + length payload + padding (2 + length payload)
unfolding plain_text
length-plain_text payload = omega (
  arith,
  length-append (le_bytes 2 (length payload) ++ payload) (fill (padding (2 + length payload)) 0x33),
  length-append (le_bytes 2 (length payload)) payload,
  length-le_bytes 2 (length payload),
  length-fill (padding (2 + length payload)) 0x33,
)

pub length-frame_body :
    (p : Protocol) (payload : List ℕ)
    → length (frame_body p payload) ≡ 6 + length payload + padding (2 + length payload)
unfolding frame_body cipher_text
length-frame_body p payload = omega (
  arith,
  length-append (le_bytes 4 (adler_checksum (encrypt p.lanes (plain_text payload) p.key)))
      (encrypt p.lanes (plain_text payload) p.key),
  length-le_bytes 4 (adler_checksum (encrypt p.lanes (plain_text payload) p.key)),
  length-encrypt p.lanes p.key (plain_text payload),
  length-plain_text payload,
)

write_message_length-Sends :
    (o : OutputMessage) (start : ℕ) (bs : List ℕ)
    → Sends o (start + 2) bs
    → start + 2 + length bs < 65536
    → Sends (write_message_length o) start (le_bytes 2 (length bs) ++ bs)
unfolding write_message_length
write_message_length-Sends o start bs s h =
    simp s.counted (add_header-Sends 2 (length bs) o start bs s h)

add_crypto_header-Sends :
    (o : OutputMessage) (bs : List ℕ)
    → Sends o 6 bs
    → 6 + length bs < 65536
    → let body = le_bytes 4 (adler_checksum bs) ++ bs in
      Sends (add_crypto_header true o) 0 (le_bytes 2 (length body) ++ body)
unfolding add_crypto_header
add_crypto_header-Sends o bs s h =
    simp (s.starts, s.counted, s.bytes)
      (write_message_length-Sends _ 0 (le_bytes 4 (adler_checksum bs) ++ bs)
        (add_header-Sends 4 (adler_checksum bs) o 2 bs s (omega arith))
        (omega (
          arith,
          length-append (le_bytes 4 (adler_checksum bs)) bs,
          length-le_bytes 4 (adler_checksum bs),
        )))

write_message_length-position : (o : OutputMessage) → (write_message_length o).position ≡ o.position
unfolding write_message_length add_header
write_message_length-position o = refl

-- With encryption and checksums on, the protocol sends the length of the rest of the frame and the
-- frame's body.
pub on_send_message-Sends :
    (p : Protocol) (o : OutputMessage) (payload : List ℕ)
    → p.raw_messages ≡ false
    → p.encryption_enabled ≡ true
    → p.checksum_enabled ≡ true
    → Sends o 8 payload
    → o.position ≡ 8 + length payload
    → length payload ≤ max_protocol_body_length
    → Sends
        (on_send_message p o)
        0
        (le_bytes 2 (length (frame_body p payload)) ++ frame_body p payload)
unfolding on_send_message frame_body
on_send_message-Sends p o payload raw enc sum s pos room =
    simp (raw, enc, sum)
      (add_crypto_header-Sends _ (cipher_text p payload)
        (unfold cipher_text plain_text in encrypt-Sends p (write_message_length o) 6 _ padded)
        (omega (arith, l, length-plain_text payload)))
  where
    head : List ℕ
    head = le_bytes 2 (length payload) ++ payload

    lh : length head ≡ 2 + length payload
    lh = omega (
      arith,
      length-append (le_bytes 2 (length payload)) payload,
      length-le_bytes 2 (length payload),
    )

    l : length (cipher_text p payload) ≡ length (plain_text payload)
    l = unfold cipher_text in length-encrypt p.lanes p.key (plain_text payload)

    padded :
        Sends (pad (write_message_length o)) 6 (head ++ fill (padding (2 + length payload)) 0x33)
    padded = rw lh at (
        pad-Sends (write_message_length o) 6 head
          (write_message_length-Sends o 6 payload s (omega arith))
          (omega (arith, write_message_length-position o, lh))
          (omega (arith, write_message_length-position o, lh)))
