-- ===== src/Network/Output.antt =====
-- `OutputMessage` of src/outputmessage.h: a message with headers that grow towards its front.
use infernum_data_pack.Base.{ℕ, ◌+◌, ◌-◌, Bool, List, if◌then◌else◌}
use infernum_data_pack.Network.Memory.{load, store, le_bytes}
use infernum_data_pack.Network.Adler.{adler_checksum}
use infernum_data_pack.Network.Message.{Message, u16}

pub record OutputMessage : Type 0 where
  pub message : Message
  pub open message use *
  pub output_buffer_start : ℕ  -- uint16_t

-- `add_header<T>` for an unsigned integer of `size` bytes.
unfoldable pub add_header : ℕ → ℕ → OutputMessage → OutputMessage
add_header size value o =
    let start = u16 (o.output_buffer_start + 65536 - size) in
    record {
      message = record (o.message) {
        buffer = store o.buffer start (le_bytes size value);
        length = u16 (o.length + size);
      };
      output_buffer_start = start;
    }

unfoldable pub write_message_length : OutputMessage → OutputMessage
write_message_length o = add_header 2 o.length o

unfoldable pub add_crypto_header : Bool → OutputMessage → OutputMessage
add_crypto_header add_checksum o = write_message_length (
    if add_checksum
    then add_header 4 (adler_checksum (load o.buffer o.output_buffer_start o.length)) o
    else o)

-- Both overloads of `append`: the body of another message, with no test for room.
unfoldable pub append : Message → OutputMessage → OutputMessage
append m o = record o {
  message = record (o.message) {
    buffer = store o.buffer o.position (load m.buffer 8 m.length);
    length = u16 (o.length + m.length);
    position = u16 (o.position + m.length);
  };
}

-- What the connection hands to the socket: `getOutputBuffer()` and `getLength()`.
unfoldable pub sent_bytes : OutputMessage → List ℕ
sent_bytes o = load o.buffer o.output_buffer_start o.length
