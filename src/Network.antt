-- ===== src/Network.antt =====
-- The network layer: the cipher, the checksum, messages and their framing
-- (src/xtea.cpp, src/networkmessage.*, src/outputmessage.h, src/protocol.cpp).
pub mod Words
pub mod Xtea
pub mod Memory
pub mod Message
pub mod Adler
pub mod Output
pub mod Connection
pub mod Protocol
pub mod Frame
