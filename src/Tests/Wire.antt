-- ===== src/Tests/Wire.antt =====
-- Messages, the cipher, the checksum and a whole frame (src/protocol.cpp, src/connection.cpp).
use infernum_data_pack.Base.{
  ℕ, ◌+◌, ◌*◌, ◌^◌, ◌≤◌, ◌≡◌, refl, true, false, List, [], ◌∷◌, map, some, All, arith, length,
}
use infernum_data_pack.Network.Words.{IsByte}
use infernum_data_pack.Network.Memory.{Memory, le_bytes}
use infernum_data_pack.Network.Message.{Message}
use infernum_data_pack.Network.Message.Writes.{
  Field, byte, number, text, place, IsField, IsWriting, encode, encode_all, write_all,
}
use infernum_data_pack.Network.Message.RoundTrip.{kind, read_all, read_all-write_all}
use infernum_data_pack.Network.Adler.{adler_checksum}
use infernum_data_pack.Network.Adler.Exact.{reference, adler_checksum-reference}
use infernum_data_pack.Network.Xtea.{Key, xtea, encrypt, decrypt}
use infernum_data_pack.Network.Xtea.Blocks.{blockwise, lane, xtea-blockwise}
use infernum_data_pack.Network.Xtea.RoundTrip.{decrypt-encrypt}
use infernum_data_pack.Network.Output.{sent_bytes}
use infernum_data_pack.Network.Connection.{Connection, time_passed}
use infernum_data_pack.Network.Protocol.{Protocol, on_send_message}
use infernum_data_pack.Network.Frame.{deliver}
use infernum_data_pack.Network.Frame.Delivery.{IsInRate}
use infernum_data_pack.Network.Frame.EndToEnd.{message_with, deliver_fields}

abbrev some_key : Key
some_key = record { k0 = 1; k1 = 2; k2 = 3; k3 = 4 }

abbrev zeros : Memory
zeros p = 0

abbrev sender : Protocol
sender = record {
  key = some_key;
  encryption_enabled = true;
  checksum_enabled = true;
  raw_messages = false;
  lanes = 3;
}

abbrev receiver : Protocol
receiver = record {
  key = some_key;
  encryption_enabled = true;
  checksum_enabled = true;
  raw_messages = false;
  lanes = 0;
}

abbrev empty_message : Message
empty_message = record { length = 0; position = 8; overrun = false; buffer = zeros }

abbrev connection : Connection
connection = record {
  message = empty_message;
  is_open = true;
  packets_sent = 0;
  time_connected = 0;
}

abbrev fields : List Field
fields =
    byte 7 ∷ number 4 70000 ∷ text (72 ∷ 105 ∷ []) ∷ place (record { x = 100; y = 200; z = 7 }) ∷ []

fields-IsField : All IsField fields
fields-IsField = (
  omega arith,
  (
    omega arith,
    (
      (omega arith, (omega arith, (omega arith, tt))),
      ((omega arith, omega arith, omega arith), tt),
    ),
  ),
)

fields_fit : length (encode_all fields) ≤ 64
unfolding encode_all encode le_bytes
fields_fit = omega arith

empty_message-IsWriting : IsWriting empty_message
empty_message-IsWriting = record { at_end = refl; below = omega arith }

in_rate : IsInRate 25 0 connection
unfolding time_passed
in_rate = omega arith

deliver_fields_example :
    (m : Message) × (deliver receiver 25 0 connection
        (sent_bytes (on_send_message sender (message_with zeros fields)))
      ≡ some m)
    × ((read_all (map kind fields) m).1 ≡ fields)
    × ((read_all (map kind fields) m).0.overrun ≡ false)
deliver_fields_example =
    deliver_fields sender receiver connection 25 0 zeros fields
      (record { wraps = refl; encrypts = refl; sums = refl })
      (record { decrypts = refl; same_key = refl }) refl in_rate fields-IsField
      (omega (arith, fields_fit))

read_all-write_all_example :
    let written = write_all fields empty_message in
    read_all (map kind fields) (record written { position = empty_message.position })
    ≡ (written, fields)
read_all-write_all_example =
    read_all-write_all fields empty_message fields-IsField empty_message-IsWriting
      (omega (arith, fields_fit))

abbrev nine_bytes : List ℕ
nine_bytes = 1 ∷ 2 ∷ 3 ∷ 4 ∷ 5 ∷ 6 ∷ 7 ∷ 8 ∷ 9 ∷ []

nine_bytes-IsByte : All IsByte nine_bytes
nine_bytes-IsByte = (
  omega arith,
  (
    omega arith,
    (
      omega arith,
      (omega arith, (omega arith, (omega arith, (omega arith, (omega arith, (omega arith, tt)))))),
    ),
  ),
)

decrypt-encrypt_example : decrypt 0 (encrypt 3 nine_bytes some_key) some_key ≡ nine_bytes
decrypt-encrypt_example = decrypt-encrypt 3 0 some_key nine_bytes nine_bytes-IsByte

xtea-blockwise_example : xtea true 3 some_key nine_bytes ≡ blockwise (lane true some_key) nine_bytes
xtea-blockwise_example = xtea-blockwise true 3 some_key nine_bytes

adler_checksum-reference_example :
    let (a, b) = reference nine_bytes 1 0 in adler_checksum nine_bytes ≡ a + b * 2 ^ 16
adler_checksum-reference_example =
    adler_checksum-reference nine_bytes nine_bytes-IsByte (omega arith)
