-- ===== src/Network/Frame.antt =====
-- A message on its way from one end of a connection to the other: src/protocol.cpp,
-- src/outputmessage.h and src/connection.cpp together.
pub mod Sender
pub mod Receiver
pub mod Delivery
pub mod EndToEnd
use infernum_data_pack.Base.{ℕ, true, false, List, Option, none, some, take, drop}
use infernum_data_pack.Network.Message.{Message}
use infernum_data_pack.Network.Protocol.{Protocol, on_recv_message}
use infernum_data_pack.Network.Connection.{
  Connection, Next, close_now, close_later, ignored, read_body, parse_header, check_packet, receive,
}

-- `parsePacket` on a body of `size` bytes, where the protocol exists and has had its first message.
unfoldable pub take_body : Protocol → Message → List ℕ → Option Message
unfolding receive check_packet on_recv_message
take_body p m body = let (m', valid) = check_packet (receive 2 body m) in on_recv_message p m'

unfoldable pub after_header : Protocol → List ℕ → Connection × Next → Option Message
unfolding take_body
after_header p rest (c, read_body size) = take_body p c.message (take size rest)
after_header p rest (c, close_now) = none
after_header p rest (c, close_later) = none
after_header p rest (c, ignored) = none

-- The two `async_read`s and their handlers on the bytes of one frame: what reaches `parsePacket` of
-- the protocol.
unfoldable pub deliver : Protocol → ℕ → ℕ → Connection → List ℕ → Option Message
unfolding after_header receive
deliver p max_packets now c wire =
    after_header p (drop 2 wire) (
      parse_header max_packets now false (record c { message = receive 0 (take 2 wire) c.message }))
