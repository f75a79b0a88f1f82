-- ===== src/Network/Frame/EndToEnd.antt =====
-- Values written at one end of a connection are read at the other.
use infernum_data_pack.Base.{
  ℕ, ◌+◌, ◌≤◌, ◌≡◌, refl, ap, ◌∙◌, true, false, List, ◌++◌, map, some, All, arith, length,
}
use infernum_data_pack.Network.Words.{IsByte}
use infernum_data_pack.Network.Memory.{Memory, store, le_bytes, length-le_bytes, load-store_self}
use infernum_data_pack.Network.Message.{Message, max_protocol_body_length, put, fill}
use infernum_data_pack.Network.Message.Writes.{
  Field, IsField, IsWriting, encode_all, encode_all-IsByte, write_all, write_all-eq-put,
}
use infernum_data_pack.Network.Message.RoundTrip.{
  Holds, Holds-split, moved, kind, read_all, read_all_of_Holds,
}
use infernum_data_pack.Network.Output.{OutputMessage, sent_bytes}
use infernum_data_pack.Network.Connection.{Connection, receive}
use infernum_data_pack.Network.Protocol.{Protocol, on_send_message, fresh}
use infernum_data_pack.Network.Frame.{deliver}
use infernum_data_pack.Network.Frame.Sender.{
  Sends, padding, plain_text, frame_body, length-frame_body, on_send_message-Sends,
}
use infernum_data_pack.Network.Frame.Receiver.{opened, opened-Holds}
use infernum_data_pack.Network.Frame.Delivery.{
  Understands, IsInRate, received, waiting, take_body_of_frame, deliver_wire,
}

-- A protocol that encrypts and adds checksums.
pub record Secures (p : Protocol) : Type 0 where
  pub wraps : p.raw_messages ≡ false
  pub encrypts : p.encryption_enabled ≡ true
  pub sums : p.checksum_enabled ≡ true

-- A new output message to which the values have been written.
unfoldable pub message_with : Memory → List Field → OutputMessage
message_with memory fs = let o = fresh memory in record o { message = write_all fs o.message }

sent_bytes-Sends : (o : OutputMessage) (bs : List ℕ) → Sends o 0 bs → sent_bytes o ≡ bs
unfolding sent_bytes
sent_bytes-Sends o bs s = simp (s.starts, s.counted, s.bytes)

fresh-IsWriting : (memory : Memory) → IsWriting (fresh memory).message
unfolding fresh
fresh-IsWriting memory = omega arith

message_with-Sends :
    (memory : Memory) (fs : List Field)
    → All IsField fs
    → length (encode_all fs) ≤ max_protocol_body_length
    → Sends (message_with memory fs) 8 (encode_all fs)
      × ((message_with memory fs).position ≡ 8 + length (encode_all fs))
unfolding message_with put
message_with-Sends memory fs i room =
    rw
      (write_all-eq-put fs (fresh memory).message i (fresh-IsWriting memory)
        (unfold fresh in omega arith))
      (unfold fresh in
        (
          record {
            starts = refl;
            counted = omega arith;
            bytes = load-store_self memory 8 (encode_all fs);
          },
          omega arith,
        ))

opened_payload :
    (m : Message) (payload : List ℕ)
    → length payload ≤ max_protocol_body_length
    → Holds (opened m payload) payload
opened_payload m payload small = record {
  bytes = simp (length-le_bytes 2 (length payload)) at (inner.1.bytes);
  arrived = omega arith;
  inside = omega arith;
}
  where
    start : Message
    start = record m {
      buffer = store m.buffer 6 (plain_text payload);
      position = 6;
      length = 6 + length (plain_text payload);
    }

    head : List ℕ
    head = le_bytes 2 (length payload)

    tail : List ℕ
    tail = fill (padding (2 + length payload)) 0x33

    outer : Holds start (head ++ payload) × Holds (moved start (length (head ++ payload))) tail
    outer =
        Holds-split start (head ++ payload) tail (unfold plain_text in opened-Holds m payload small)

    inner : Holds start head × Holds (moved start (length head)) payload
    inner = Holds-split start head payload outer.0

-- A message whose body is the bytes `payload`, sent by `p`, is handed to the other end's
-- `parsePacket`, with the payload at its position and its length as the length.
deliver_sent :
    (p q : Protocol) (c : Connection) (max_packets now : ℕ) (o : OutputMessage) (payload : List ℕ)
    → Secures p
    → Understands q p
    → c.is_open ≡ true
    → IsInRate max_packets now c
    → Sends o 8 payload
    → o.position ≡ 8 + length payload
    → length payload ≤ max_protocol_body_length
    → All IsByte payload
    → deliver q max_packets now c (sent_bytes (on_send_message p o))
      ≡ some (
          opened
            (received (waiting c.message (length (frame_body p payload))) (frame_body p payload))
            payload)
deliver_sent p q c max_packets now o payload s u is_open rate sends pos room h =
    ap (deliver q max_packets now c) (
      sent_bytes-Sends _ _
        (on_send_message-Sends p o payload s.wraps s.encrypts s.sums sends pos room))
    ∙ deliver_wire q c max_packets now (frame_body p payload) is_open rate
        (omega (arith, length-frame_body p payload)) (omega (arith, length-frame_body p payload))
    ∙ take_body_of_frame p q (waiting c.message (length (frame_body p payload))) payload u refl
        (omega arith) room h

-- Any values whose encodings fit `MAX_PROTOCOL_BODY_LENGTH` together, written to a new output message
-- and sent by a protocol with encryption and checksums on, over an open connection within its packet
-- rate, reach `parsePacket` of a protocol with the same key (the two builds may use different numbers
-- of lanes). Reading them there by their types gives the same values in the same order, and no read
-- overruns.
pub deliver_fields :
    (p q : Protocol) (c : Connection) (max_packets now : ℕ) (memory : Memory) (fs : List Field)
    → Secures p
    → Understands q p
    → c.is_open ≡ true
    → IsInRate max_packets now c
    → All IsField fs
    → length (encode_all fs) ≤ max_protocol_body_length
    → (m : Message) × (deliver q max_packets now c
          (sent_bytes (on_send_message p (message_with memory fs)))
        ≡ some m)
      × ((read_all (map kind fs) m).1 ≡ fs)
      × ((read_all (map kind fs) m).0.overrun ≡ c.message.overrun)
deliver_fields p q c max_packets now memory fs s u is_open rate i room =
    let (sends, pos) = message_with-Sends memory fs i room in
    (
      m,
      deliver_sent p q c max_packets now (message_with memory fs) payload s u is_open rate sends pos
          room (encode_all-IsByte fs i),
      ap (λ (r : Message × List Field). r.1) reading,
      ap (λ (r : Message × List Field). r.0.overrun) reading ∙ unfold receive in refl,
    )
  where
    payload : List ℕ
    payload = encode_all fs

    before : Message
    before = received (waiting c.message (length (frame_body p payload))) (frame_body p payload)

    m : Message
    m = opened before payload

    reading : read_all (map kind fs) m ≡ (moved m (length payload), fs)
    reading = read_all_of_Holds fs m i (opened_payload before payload room)
