-- ===== src/Network.antt =====
-- The wire: networkmessage.h, networkmessage.cpp, outputmessage.h and the ciphers of protocol.cpp.
pub mod Bytes
pub mod Message
pub mod Fields
pub mod Xtea
pub mod Adler
mod Tests
