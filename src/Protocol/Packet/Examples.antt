-- ===== src/Protocol/Packet/Examples.antt =====
-- A discovery request on the wire.
use remote_bsp.Prelude.{◌≡◌, ◌≢◌, refl, [], ◌∷◌, ◌++◌, length, All, ok, arith}
use remote_bsp.Bytes.{Bytes, IsByte, read_u16, read_u32}
use remote_bsp.Protocol.Crc32.{crc32}
use remote_bsp.Protocol.Packet.{Packet, new_packet, encode, decode, valid_message_type}
use remote_bsp.Protocol.Packet.RoundTrip.{Fits, stamped, decode-encode}
use remote_bsp.Protocol.Packet.Canonical.{encode-decode}
use remote_bsp.Protocol.Packet.Integrity.{decode-detects}

-- The check value of the CRC-32 of IEEE 802.3.
crc32_check : crc32 (0x31 ∷ 0x32 ∷ 0x33 ∷ 0x34 ∷ 0x35 ∷ 0x36 ∷ 0x37 ∷ 0x38 ∷ 0x39 ∷ []) ≡ 0xCBF43926
unfolding crc32
crc32_check = refl

abbrev request : Packet
request = record {
  header = record (new_packet.header) { command = 1; request_id = 7 };
  payload = 1 ∷ 1 ∷ [];
}

request-Fits : Fits request.header
request-Fits = record {
  version = refl;
  message_type_lo = omega arith;
  message_type_hi = omega arith;
  command = omega arith;
  session_id = omega arith;
  request_id = omega arith;
  object_id = omega arith;
  flags = omega arith;
}

decode-encode_example :
    (bytes : Bytes) × (encode request ≡ ok bytes)
    × (length bytes ≡ 26)
    × (decode bytes ≡ ok (stamped request))
decode-encode_example = decode-encode request request-Fits (omega arith)

abbrev front_bytes : Bytes
front_bytes = 1 ∷ 1 ∷ 1 ∷ 0 ∷ 0 ∷ 0 ∷ 0 ∷ 0 ∷ 7 ∷ 0 ∷ 0 ∷ 0 ∷ 0 ∷ 0 ∷ 0 ∷ 0 ∷ 2 ∷ 0 ∷ 0 ∷ 0 ∷ []

abbrev wire_bytes : Bytes
wire_bytes = front_bytes ++ 228 ∷ 103 ∷ 165 ∷ 3 ∷ 1 ∷ 1 ∷ []

abbrev received : Packet
received = record {
  header = record (request.header) { payload_length = 2; crc = 61171684 };
  payload = 1 ∷ 1 ∷ [];
}

wire_bytes-decode : decode wire_bytes ≡ ok received
unfolding decode valid_message_type crc32 read_u16 read_u32
wire_bytes-decode = refl

wire_bytes-bytes : All IsByte wire_bytes
wire_bytes-bytes = ground arith

encode-decode_example : encode received ≡ ok wire_bytes
encode-decode_example = encode-decode wire_bytes received wire_bytes-bytes wire_bytes-decode

-- The request id of the packet with a bit flipped.
abbrev before_id : Bytes
before_id = 1 ∷ 1 ∷ 1 ∷ 0 ∷ 0 ∷ 0 ∷ 0 ∷ 0 ∷ []

abbrev behind_id : Bytes
behind_id = 0 ∷ 0 ∷ 0 ∷ 0 ∷ 0 ∷ 0 ∷ 0 ∷ 2 ∷ 0 ∷ 0 ∷ 0 ∷ 228 ∷ 103 ∷ 165 ∷ 3 ∷ 1 ∷ 1 ∷ []

decode-detects_example : decode (before_id ++ 5 ∷ behind_id) ≢ ok received
decode-detects_example =
    decode-detects before_id 7 5 behind_id received received wire_bytes-bytes (omega arith)
      (λ e. absurd (omega (arith, e))) wire_bytes-decode
