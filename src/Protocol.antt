-- ===== src/Protocol.antt =====
-- internal/protocol: the messages between the server and a terminal, and their encodings.
pub mod Message
pub mod Head
pub mod Codec
pub mod Binary
pub mod Json
