-- ===== src/Protocol/Discovery.antt =====
-- protocol/include/remotebsp/protocol/discovery.hpp and protocol/src/discovery.cpp: the payloads of
-- discovery, node assignment and heartbeat. A `NodeUuid` is a byte string, of 16 bytes in the
-- program.
pub mod RoundTrip
mod Examples
use remote_bsp.Prelude.{
  ℕ, ltb, ◌==◌, not, ◌||◌, List, [], ◌∷◌, ◌++◌, length, take, drop, Result, ok, err, throw_if, ◌>>◌,
  ◌>>=◌,
}
use remote_bsp.Bytes.{Bytes, byte_at, append_u16, append_u32, read_u16, read_u32}

abbrev pub NodeUuid : Type 0
NodeUuid = Bytes

abbrev pub uuid_size : ℕ
uuid_size = 16

pub record DiscoveryRequestPayload : Type 0 where
  pub minimum_protocol_version : ℕ
  pub maximum_protocol_version : ℕ

pub record NodeIdentity : Type 0 where
  pub uuid : NodeUuid
  pub firmware_major : ℕ
  pub firmware_minor : ℕ
  pub firmware_patch : ℕ
  pub board_type : ℕ
  pub protocol_version : ℕ

pub record NodeAssignment : Type 0 where
  pub uuid : NodeUuid
  pub node_id : ℕ

pub record HeartbeatPayload : Type 0 where
  pub uuid : NodeUuid
  pub protocol_version : ℕ

pub data DiscoveryPayloadError : Type 0 where
  invalid_length invalid_version_range invalid_node_id : DiscoveryPayloadError

unfoldable pub encode_discovery_request :
    DiscoveryRequestPayload → Result DiscoveryPayloadError Bytes
encode_discovery_request payload = do
  throw_if
      (payload.minimum_protocol_version == 0
        || ltb payload.maximum_protocol_version payload.minimum_protocol_version)
      invalid_version_range
  ok (payload.minimum_protocol_version ∷ payload.maximum_protocol_version ∷ [])

unfoldable pub decode_discovery_request :
    Bytes → Result DiscoveryPayloadError DiscoveryRequestPayload
unfolding encode_discovery_request
decode_discovery_request payload = do
  throw_if (not (length payload == 2)) invalid_length
  let decoded : DiscoveryRequestPayload = record {
    minimum_protocol_version = byte_at payload 0;
    maximum_protocol_version = byte_at payload 1;
  }
  _ ← encode_discovery_request decoded
  ok decoded

unfoldable pub encode_node_identity : NodeIdentity → Bytes
encode_node_identity identity =
    append_u32
      (append_u16
        (append_u16 (append_u16 ([] ++ identity.uuid) identity.firmware_major)
          identity.firmware_minor)
        identity.firmware_patch)
      identity.board_type
    ++ (identity.protocol_version ∷ [])

unfoldable pub decode_node_identity : Bytes → Result DiscoveryPayloadError NodeIdentity
decode_node_identity payload = do
  throw_if (not (length payload == 27)) invalid_length
  ok (record {
    uuid = take uuid_size payload;
    firmware_major = read_u16 (drop 16 payload);
    firmware_minor = read_u16 (drop 18 payload);
    firmware_patch = read_u16 (drop 20 payload);
    board_type = read_u32 (drop 22 payload);
    protocol_version = byte_at payload 26;
  })

unfoldable pub encode_node_assignment : NodeAssignment → Result DiscoveryPayloadError Bytes
encode_node_assignment assignment = do
  throw_if (assignment.node_id == 0) invalid_node_id
  ok (append_u32 ([] ++ assignment.uuid) assignment.node_id)

unfoldable pub decode_node_assignment : Bytes → Result DiscoveryPayloadError NodeAssignment
decode_node_assignment payload = do
  throw_if (not (length payload == 20)) invalid_length
  let node_id = read_u32 (drop 16 payload)
  throw_if (node_id == 0) invalid_node_id
  ok (record { uuid = take uuid_size payload; node_id = node_id })

unfoldable pub encode_heartbeat : HeartbeatPayload → Bytes
encode_heartbeat heartbeat = ([] ++ heartbeat.uuid) ++ (heartbeat.protocol_version ∷ [])

unfoldable pub decode_heartbeat : Bytes → Result DiscoveryPayloadError HeartbeatPayload
decode_heartbeat payload = do
  throw_if (not (length payload == 17)) invalid_length
  ok (record { uuid = take uuid_size payload; protocol_version = byte_at payload 16 })
