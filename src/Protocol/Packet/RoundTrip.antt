-- ===== src/Protocol/Packet/RoundTrip.antt =====
-- `encode` and then `decode` of protocol/src/packet.cpp.
use remote_bsp.Prelude.{ℕ, ◌+◌, ◌^◌, ◌≤◌, ◌<◌, ◌≡◌, ◌∷◌, ◌++◌, length, drop, ok, arith}
use remote_bsp.Bytes.{Bytes, u16}
use remote_bsp.Bytes.Laws.{le16, le32, read_u16-le16, read_u32-le32}
use remote_bsp.Protocol.Crc32.{crc32}
use remote_bsp.Protocol.Crc32.Detect.{crc32-IsWord}
use remote_bsp.Protocol.Packet.{
  Packet, PacketHeader, encode, decode, maximum_payload_size, protocol_version, packet_header_size,
}

-- A header whose fields fit their widths.
pub record Fits (h : PacketHeader) : Type 0 where
  pub version : h.version ≡ protocol_version
  pub message_type_lo : 1 ≤ h.message_type
  pub message_type_hi : h.message_type ≤ 3
  pub command : h.command < 2 ^ 16
  pub session_id : h.session_id < 2 ^ 32
  pub request_id : h.request_id < 2 ^ 32
  pub object_id : h.object_id < 2 ^ 32
  pub flags : h.flags < 2 ^ 16

-- The bytes of a packet: the header of 20 bytes, the checksum, the payload.
abbrev front : Packet → Bytes
front p =
    p.header.version
    ∷ p.header.message_type
    ∷ (le16 p.header.command
        ++ le32 p.header.session_id
        ++ le32 p.header.request_id
        ++ le32 p.header.object_id
        ++ le16 (u16 (length p.payload))
        ++ le16 p.header.flags)

abbrev pub checksum : Packet → ℕ
checksum p = crc32 (front p ++ p.payload)

abbrev pub wire : Packet → Bytes
wire p = front p ++ (le32 (checksum p) ++ p.payload)

-- The packet with the two fields that `encode` computes.
abbrev pub stamped : Packet → Packet
stamped p = record p {
  header = record (p.header) { payload_length = length p.payload; crc = checksum p };
}

pub encode-wire :
    (p : Packet) → Fits p.header → length p.payload ≤ maximum_payload_size → encode p ≡ ok (wire p)
unfolding encode
encode-wire p f h = ground arith

pub decode-wire :
    (p : Packet)
    → Fits p.header
    → length p.payload ≤ maximum_payload_size
    → decode (wire p) ≡ ok (stamped p)
unfolding decode
decode-wire p f h = ground (
  arith,
  read_u16-le16 p.header.command (drop 4 (wire p)),
  read_u32-le32 p.header.session_id (drop 8 (wire p)),
  read_u32-le32 p.header.request_id (drop 12 (wire p)),
  read_u32-le32 p.header.object_id (drop 16 (wire p)),
  read_u16-le16 (u16 (length p.payload)) (drop 18 (wire p)),
  read_u16-le16 p.header.flags (drop 20 (wire p)),
  read_u32-le32 (checksum p) p.payload,
  crc32-IsWord (front p ++ p.payload),
)

-- A packet whose header fields fit their widths, with version 1, a message type from 1 to 3 and a
-- payload of at most 2024 bytes, is encoded; the result has 24 bytes more than the payload, and
-- `decode` returns the packet with the payload length and the checksum filled in.
pub decode-encode :
    (p : Packet)
    → Fits p.header
    → length p.payload ≤ maximum_payload_size
    → (bytes : Bytes) × (encode p ≡ ok bytes)
      × (length bytes ≡ length p.payload + packet_header_size)
      × (decode bytes ≡ ok (stamped p))
decode-encode p f h = (wire p, encode-wire p f h, omega arith, decode-wire p f h)

-- `encode` succeeds only on version 1, a message type from 1 to 3 and a payload of at most 2024
-- bytes.
pub encode-ok :
    (p : Packet) (bytes : Bytes)
    → encode p ≡ ok bytes
    → (p.header.version ≡ protocol_version)
      × (1 ≤ p.header.message_type)
      × (p.header.message_type ≤ 3)
      × (length p.payload ≤ maximum_payload_size)
unfolding encode
encode-ok p bytes e = ground arith
