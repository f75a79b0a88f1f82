-- ===== src/Network/Message.antt =====
-- src/networkmessage.h and src/networkmessage.cpp: a message's cursor, its reads and its writes.
-- A method that changes the object returns the new one. `uint16_t` and `size_t` fields are plain
-- numbers, with the wrap of `position` and `length` written out.
pub mod Bounds
pub mod Writes
pub mod RoundTrip
use infernum_data_pack.Base.{
  ℕ, zero, suc, ◌+◌, ◌-◌, ◌*◌, ◌%◌, ◌^◌, Bool, true, false, List, [], ◌∷◌, length, ltb, leb, ◌==◌,
  if◌then◌else◌, bit_or, not, ◌||◌,
}
use infernum_data_pack.Position.{Position}
use infernum_data_pack.Network.Memory.{Memory, load, store, le_bytes, le_value}

-- `NETWORKMESSAGE_MAXSIZE` of src/const.h.
abbrev pub network_message_max_size : ℕ
network_message_max_size = 24590

abbrev pub header_length : ℕ
header_length = 2

abbrev pub checksum_length : ℕ
checksum_length = 4

abbrev pub xtea_multiple : ℕ
xtea_multiple = 8

abbrev pub max_body_length : ℕ
max_body_length = network_message_max_size - header_length - checksum_length - xtea_multiple

abbrev pub max_protocol_body_length : ℕ
max_protocol_body_length = max_body_length - 10

abbrev pub initial_buffer_position : ℕ
initial_buffer_position = 8

abbrev pub u16 : ℕ → ℕ
u16 n = n % 65536

-- `NetworkMessageInfo` and `buffer`.
pub record Message : Type 0 where
  pub length : ℕ  -- uint16_t
  pub position : ℕ  -- uint16_t
  pub overrun : Bool
  pub buffer : Memory

unfoldable pub reset : Message → Message
reset m = record m { length = 0; position = initial_buffer_position; overrun = false }

unfoldable pub can_add : Message → ℕ → Bool
can_add m size = ltb (size + m.position) max_body_length

-- The test of `canRead`; `size >= MAXSIZE - position` is in `int`, where it may be negative, so the
-- position stands on the other side here.
unfoldable pub in_message : Message → ℕ → Bool
in_message m size =
    if ltb (m.length + 8) (m.position + size) || leb network_message_max_size (size + m.position)
    then false
    else true

unfoldable pub can_read : Message → ℕ → Message × Bool
unfolding in_message
can_read m size = if in_message m size then (m, true) else (record m { overrun = true }, false)

unfoldable pub advance : Message → ℕ → Message
advance m n = record m { position = u16 (m.position + n) }

unfoldable pub get_byte : Message → Message × ℕ
unfolding can_read advance
get_byte m =
    let (m', readable) = can_read m 1 in
    if readable then (advance m' 1, m'.buffer m'.position) else (m', 0)

unfoldable pub get_previous_byte : Message → Message × ℕ
get_previous_byte m = let p = u16 (m.position + 65535) in (record m { position = p }, m.buffer p)

-- `get<T>` for an unsigned integer of `size` bytes.
unfoldable pub get : ℕ → Message → Message × ℕ
unfolding can_read advance
get size m =
    let (m', readable) = can_read m size in
    if readable then (advance m' size, le_value (load m'.buffer m'.position size)) else (m', 0)

-- `getString` once the length is known.
unfoldable pub take_string : ℕ → Message → Message × List ℕ
unfolding can_read advance
take_string n m =
    let (m', readable) = can_read m n in
    if readable then (advance m' n, load m'.buffer m'.position n) else (m', [])

unfoldable pub get_string : ℕ → Message → Message × List ℕ
unfolding take_string get
get_string string_len m =
    if string_len == 0
    then (let (m', n) = get 2 m in take_string n m')
    else take_string string_len m

unfoldable pub get_position : Message → Message × Position
unfolding get get_byte
get_position m =
    let (m1, x) = get 2 m in
    let (m2, y) = get 2 m1 in let (m3, z) = get_byte m2 in (m3, record { x = x; y = y; z = z })

-- `count` is the bit pattern of the `int16_t`.
unfoldable pub skip_bytes : ℕ → Message → Message
unfolding advance
skip_bytes count m = advance m count

-- The copy and the two increments that the writing methods share.
unfoldable pub put : List ℕ → Message → Message
put bytes m = record m {
  buffer = store m.buffer m.position bytes;
  position = u16 (m.position + length bytes);
  length = u16 (m.length + length bytes);
}

unfoldable pub add_byte : ℕ → Message → Message
unfolding can_add put
add_byte value m = if can_add m 1 then put (value ∷ []) m else m

-- `add<T>` for an unsigned integer of `size` bytes.
unfoldable pub add : ℕ → ℕ → Message → Message
unfolding can_add put
add size value m = if can_add m size then put (le_bytes size value) m else m

unfoldable pub add_bytes : List ℕ → Message → Message
unfolding can_add put
add_bytes bytes m =
    if not (can_add m (length bytes)) || ltb 8192 (length bytes) then m else put bytes m

unfoldable pub fill : ℕ → ℕ → List ℕ
fill zero b = []
fill (suc n) b = b ∷ fill n b

-- The padding does not move the position.
unfoldable pub add_padding_bytes : ℕ → Message → Message
unfolding can_add fill
add_padding_bytes n m =
    if can_add m n
    then record m { buffer = store m.buffer m.position (fill n 0x33); length = u16 (m.length + n) }
    else m

unfoldable pub add_string : List ℕ → Message → Message
unfolding can_add put add
add_string value m =
    if not (can_add m (length value + 2)) || ltb 8192 (length value)
    then m
    else put value (add 2 (length value) m)

unfoldable pub add_position : Position → Message → Message
unfolding add add_byte
add_position pos m = add_byte pos.z (add 2 pos.y (add 2 pos.x m))

unfoldable pub get_length_header : Message → ℕ
get_length_header m = u16 (bit_or (m.buffer 0) (m.buffer 1 * 2 ^ 8))

unfoldable pub get_body_buffer : Message → Message
get_body_buffer m = record m { position = 2 }
