-- ===== src/Network/Protocol.antt =====
-- src/protocol.cpp: what a protocol does to a message on its way out and on its way in.
use infernum_data_pack.Base.{
  ℕ, ◌+◌, ◌-◌, ◌%◌, Bool, true, false, List, [], ◌∷◌, Option, none, some, ltb, ◌==◌, not,
  if◌then◌else◌,
}
use infernum_data_pack.Network.Memory.{load, store}
use infernum_data_pack.Network.Xtea.{Key, encrypt, decrypt}
use infernum_data_pack.Network.Message.{
  Message, max_protocol_body_length, add_padding_bytes, get, get_byte, initial_buffer_position,
}
use infernum_data_pack.Network.Output.{OutputMessage, write_message_length, add_crypto_header}

pub record Protocol : Type 0 where
  pub key : Key
  pub encryption_enabled : Bool
  pub checksum_enabled : Bool
  pub raw_messages : Bool
  -- `InitialBlockSize` of the build is 2 to this power.
  pub lanes : ℕ

unfoldable pub pad : OutputMessage → OutputMessage
unfolding add_padding_bytes
pad o =
    let padding_bytes = o.length % 8 in
    if padding_bytes == 0
    then o
    else record o { message = add_padding_bytes (8 - padding_bytes) o.message }

unfoldable pub xtea_encrypt : Protocol → OutputMessage → OutputMessage
unfolding pad
xtea_encrypt p o =
    let o' = pad o in
    record o' {
      message = record (o'.message) {
        buffer =
            store o'.buffer o'.output_buffer_start
              (encrypt p.lanes (load o'.buffer o'.output_buffer_start o'.length) p.key);
      };
    }

unfoldable pub on_send_message : Protocol → OutputMessage → OutputMessage
on_send_message p o =
    if p.raw_messages
    then o
    else (let o' = write_message_length o in
        if p.encryption_enabled
        then add_crypto_header p.checksum_enabled (xtea_encrypt p o')
        else o')

-- `((length - 6) & 7) != 0` in `int`: a length below 6 makes a negative number between -6 and -1,
-- whose lowest three bits are not all 0 either.
unfoldable pub whole_blocks : ℕ → Bool
whole_blocks n = if ltb n 6 then false else (n - 6) % 8 == 0

unfoldable pub xtea_decrypt : Protocol → Message → Message × Bool
xtea_decrypt p m =
    if not (whole_blocks m.length)
    then (m, false)
    else (let m1 = record m {
      buffer =
          store m.buffer m.position
            (decrypt p.lanes (load m.buffer m.position (m.length - 6)) p.key);
    } in
        let (m2, inner_length) = get 2 m1 in
        if ltb m2.length (inner_length + 8)
        then (m2, false)
        else (record m2 { length = inner_length }, true))

-- The message that `parsePacket` is given, if it is called.
unfoldable pub on_recv_message : Protocol → Message → Option Message
unfolding xtea_decrypt
on_recv_message p m =
    if p.encryption_enabled
    then (let (m', decrypted) = xtea_decrypt p m in if decrypted then some m' else none)
    else some m

-- `RSA_decrypt`, with the library's decryption of 128 bytes as a parameter.
module _ (rsa : List ℕ → List ℕ) where
  unfoldable pub rsa_decrypt : Message → Message × Bool
  unfolding get_byte
  rsa_decrypt m =
      if ltb m.length (m.position + 128)
      then (m, false)
      else (let m1 = record m {
        buffer = store m.buffer m.position (rsa (load m.buffer m.position 128));
      } in
          let (m2, b) = get_byte m1 in (m2, b == 0))

-- `OutputMessagePool::getOutputMessage`: a new object over memory that holds anything.
unfoldable pub fresh : (ℕ → ℕ) → OutputMessage
fresh memory = record {
  message = record {
    length = 0;
    position = initial_buffer_position;
    overrun = false;
    buffer = memory;
  };
  output_buffer_start = initial_buffer_position;
}

-- `getOutputBuffer`: the buffer to write to, which is also the new current one, and the messages
-- handed to `send`.
unfoldable pub get_output_buffer :
    (ℕ → ℕ) → Option OutputMessage → ℕ → OutputMessage × List OutputMessage
unfolding fresh
get_output_buffer memory none size = (fresh memory, [])
get_output_buffer memory (some o) size =
    if ltb max_protocol_body_length (o.length + size) then (fresh memory, o ∷ []) else (o, [])
