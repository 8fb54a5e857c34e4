-- ===== src/Protocol/Motion.antt =====
-- protocol/include/remotebsp/protocol/motion.hpp and protocol/src/motion.cpp: the payloads of the
-- motion commands. State and fault are the numbers that they are on the wire.
pub mod Signed
pub mod Segment
pub mod Status
pub mod RoundTrip
pub mod StatusRoundTrip
mod Examples
