-- ===== src/Protocol/MessageType.antt =====
-- `enum class MessageType` of protocol/include/remotebsp/protocol/packet.hpp, as it is on the wire.
use remote_bsp.Prelude.{ℕ}

abbrev pub request : ℕ
request = 1

abbrev pub response : ℕ
response = 2

abbrev pub event : ℕ
event = 3
