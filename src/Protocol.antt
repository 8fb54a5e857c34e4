-- ===== src/Protocol.antt =====
-- The wire protocol, protocol/src: one module for each source file.
pub mod MessageType
pub mod Command
pub mod Crc32
pub mod Packet
pub mod Discovery
pub mod Resource
pub mod Motion
pub mod Fragmentation
