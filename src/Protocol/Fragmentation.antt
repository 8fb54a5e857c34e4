-- ===== src/Protocol/Fragmentation.antt =====
-- protocol/include/remotebsp/protocol/fragmentation.hpp and protocol/src/fragmentation.cpp: packets
-- cut into CAN frames, and put together again.
pub mod Frame
pub mod FrameRoundTrip
pub mod Split
pub mod Reassembler
mod Examples
