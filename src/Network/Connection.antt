-- ===== src/Network/Connection.antt =====
-- The incoming half of src/connection.cpp: `parseHeader` and the checksum of `parsePacket`. The
-- socket hands over the bytes that each `async_read` asked for.
use infernum_data_pack.Base.{
  ℕ, ◌+◌, ◌-◌, ◌/◌, ◌%◌, max, Bool, true, false, List, ltb, leb, ◌==◌, ◌||◌, if◌then◌else◌,
}
use infernum_data_pack.Network.Memory.{load, store}
use infernum_data_pack.Network.Adler.{adler_checksum}
use infernum_data_pack.Network.Message.{
  Message, network_message_max_size, header_length, checksum_length, get, skip_bytes,
  get_length_header, get_body_buffer, u16,
}

pub record Connection : Type 0 where
  pub message : Message
  pub is_open : Bool
  pub packets_sent : ℕ  -- uint32_t
  pub time_connected : ℕ  -- time_t

-- What follows a handler: the connection is closed at once or when its queue is sent, the call is
-- ignored, or `size` more bytes are awaited at offset 2.
pub data Next : Type 0 where
  close_now close_later ignored : Next
  read_body : ℕ → Next

abbrev pub u32 : ℕ → ℕ
u32 n = n % 4294967296

-- `std::max<uint32_t>(1, (time(nullptr) - timeConnected) + 1)`, whatever the clock has done.
unfoldable pub time_passed : Connection → ℕ → ℕ
time_passed c now = max 1 (u32 (now + 4294967297 - u32 c.time_connected))

unfoldable pub count_packet : Connection → ℕ → Connection
unfolding time_passed
count_packet c now =
    if ltb 2 (time_passed c now)
    then record c { time_connected = now; packets_sent = 0 }
    else record c { packets_sent = u32 (c.packets_sent + 1) }

unfoldable pub start_body : Connection → Connection × Next
start_body c =
    let size = get_length_header c.message in
    if size == 0 || leb (network_message_max_size - 16) size then (c, close_now) else (
      record c {
        message = get_body_buffer (record (c.message) { length = u16 (size + header_length) });
      },
      read_body size,
    )

-- `parseHeader`, after the two bytes of the header have been read into the buffer.
unfoldable pub parse_header : ℕ → ℕ → Bool → Connection → Connection × Next
parse_header max_packets_per_second now error c =
    if error
    then (c, close_now)
    else if not_open
    then (c, ignored)
    else if ltb max_packets_per_second (u32 (c.packets_sent + 1) / time_passed c now)
    then (record c { packets_sent = u32 (c.packets_sent + 1) }, close_later)
    else start_body (count_packet c now)
  where
    not_open : Bool
    not_open = if c.is_open then false else true

-- `parsePacket` up to the dispatch: the checksum, and whether it was the right one. The position is
-- behind the checksum if it was, and where it stood before if it was not.
unfoldable pub check_packet : Message → Message × Bool
unfolding get skip_bytes
check_packet m =
    let checksum =
      if ltb (m.position + checksum_length) m.length
      then adler_checksum
          (load m.buffer (m.position + checksum_length) (m.length - m.position - checksum_length))
      else 0 in
    let (m', recv_checksum) = get 4 m in
    if recv_checksum == checksum
    then (m', true)
    else (skip_bytes (65536 - checksum_length) m', false)

-- `async_read` into the buffer.
unfoldable pub receive : ℕ → List ℕ → Message → Message
receive offset bytes m = record m { buffer = store m.buffer offset bytes }
