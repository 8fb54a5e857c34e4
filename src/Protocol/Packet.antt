-- ===== src/Protocol/Packet.antt =====
-- protocol/include/remotebsp/protocol/packet.hpp and protocol/src/packet.cpp: the remote packet, a
-- header of 24 bytes and a payload of at most 2024. A `MessageType` and a `Command` are the numbers
-- that they are on the wire, since a C++ enum over `std::uint8_t` holds any of these and `encode`
-- tests it.
pub mod RoundTrip
pub mod Canonical
pub mod Integrity
mod Examples
use remote_bsp.Prelude.{
  ℕ, ◌+◌, ◌-◌, ◌*◌, ◌/◌, ◌%◌, ◌^◌, ltb, leb, ◌==◌, not, ◌&&◌, ◌||◌, Bool, List, [], ◌∷◌, ◌++◌,
  length, take, drop, Result, ok, err, throw_if, ◌>>◌, ◌>>=◌,
}
use remote_bsp.Bytes.{Bytes, u16, byte_at, append_u16, append_u32, read_u16, read_u32}
use remote_bsp.Protocol.Crc32.{crc32}
use remote_bsp.Protocol.MessageType

abbrev pub protocol_version : ℕ
protocol_version = 1

abbrev pub packet_header_size : ℕ
packet_header_size = 24

abbrev pub maximum_packet_size : ℕ
maximum_packet_size = 2048

abbrev pub maximum_payload_size : ℕ
maximum_payload_size = maximum_packet_size - packet_header_size

abbrev pub error_response_flag : ℕ
error_response_flag = 1

pub record PacketHeader : Type 0 where
  pub version : ℕ
  pub message_type : ℕ
  pub command : ℕ
  pub session_id : ℕ
  pub request_id : ℕ
  pub object_id : ℕ
  pub payload_length : ℕ
  pub flags : ℕ
  pub crc : ℕ

pub record Packet : Type 0 where
  pub header : PacketHeader
  pub payload : Bytes

-- `protocol::Packet packet;`
abbrev pub new_packet : Packet
new_packet = record {
  header = record {
    version = protocol_version;
    message_type = MessageType.request;
    command = 0;
    session_id = 0;
    request_id = 0;
    object_id = 0;
    payload_length = 0;
    flags = 0;
    crc = 0;
  };
  payload = [];
}

pub data PacketError : Type 0 where
  too_short too_large unsupported_version invalid_message_type length_mismatch : PacketError
  crc_mismatch : PacketError

unfoldable pub valid_message_type : ℕ → Bool
valid_message_type value = leb MessageType.request value && leb value MessageType.event

-- The header bytes 0 to 19, which the function writes in this order.
unfoldable pub write_header_without_crc : PacketHeader → Bytes
unfolding append_u16 append_u32
write_header_without_crc h =
    append_u16
      (append_u16
        (append_u32
          (append_u32
            (append_u32 (append_u16 (h.version ∷ h.message_type ∷ []) h.command) h.session_id)
            h.request_id)
          h.object_id)
        h.payload_length)
      h.flags

unfoldable pub encode : Packet → Result PacketError Bytes
unfolding valid_message_type write_header_without_crc append_u32
encode packet = do
  throw_if (not (packet.header.version == protocol_version)) unsupported_version
  throw_if (not (valid_message_type packet.header.message_type)) invalid_message_type
  throw_if (ltb maximum_payload_size (length packet.payload) || ltb 0xFFFF (length packet.payload))
      too_large
  let header = record (packet.header) { payload_length = u16 (length packet.payload) }
  let front = write_header_without_crc header
  let crc = crc32 (front ++ packet.payload)
  ok (append_u32 front crc ++ packet.payload)

unfoldable pub decode : Bytes → Result PacketError Packet
unfolding valid_message_type
decode bytes = do
  throw_if (ltb (length bytes) packet_header_size) too_short
  throw_if (ltb maximum_packet_size (length bytes)) too_large
  throw_if (not (byte_at bytes 0 == protocol_version)) unsupported_version
  throw_if (not (valid_message_type (byte_at bytes 1))) invalid_message_type
  let payload_length = read_u16 (drop 16 bytes)
  throw_if (not (length bytes == packet_header_size + payload_length)) length_mismatch
  let expected_crc = crc32 (take 20 bytes ++ drop packet_header_size bytes)
  let received_crc = read_u32 (drop 20 bytes)
  throw_if (not (expected_crc == received_crc)) crc_mismatch
  ok (record {
    header = record {
      version = byte_at bytes 0;
      message_type = byte_at bytes 1;
      command = read_u16 (drop 2 bytes);
      session_id = read_u32 (drop 4 bytes);
      request_id = read_u32 (drop 8 bytes);
      object_id = read_u32 (drop 12 bytes);
      payload_length = payload_length;
      flags = read_u16 (drop 18 bytes);
      crc = received_crc;
    };
    payload = drop packet_header_size bytes;
  })
