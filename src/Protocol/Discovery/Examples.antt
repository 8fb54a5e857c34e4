-- ===== src/Protocol/Discovery/Examples.antt =====
-- The payloads of one node.
use remote_bsp.Prelude.{◌≡◌, refl, [], ◌∷◌, ok, arith}
use remote_bsp.Bytes.{Bytes, append_u32}
use remote_bsp.Protocol.Discovery.{
  DiscoveryRequestPayload, NodeIdentity, NodeAssignment, HeartbeatPayload, encode_node_identity,
  decode_node_identity, encode_node_assignment, decode_node_assignment,
}
use remote_bsp.Protocol.Discovery.RoundTrip.{
  decode-encode_node_identity, decode-encode_node_assignment,
}

abbrev uuid : Bytes
uuid = 1 ∷ 2 ∷ 3 ∷ 4 ∷ 5 ∷ 6 ∷ 7 ∷ 8 ∷ 9 ∷ 10 ∷ 11 ∷ 12 ∷ 13 ∷ 14 ∷ 15 ∷ 16 ∷ []

abbrev versions : DiscoveryRequestPayload
versions = record { minimum_protocol_version = 1; maximum_protocol_version = 2 }

abbrev node : NodeIdentity
node = record {
  uuid = uuid;
  firmware_major = 1;
  firmware_minor = 4;
  firmware_patch = 300;
  board_type = 0x72;
  protocol_version = 1;
}

decode-encode_node_identity_example : decode_node_identity (encode_node_identity node) ≡ ok node
decode-encode_node_identity_example =
    decode-encode_node_identity node refl (omega arith) (omega arith) (omega arith) (omega arith)

abbrev seventh : NodeAssignment
seventh = record { uuid = uuid; node_id = 7 }

decode-encode_node_assignment_example : decode_node_assignment (append_u32 uuid 7) ≡ ok seventh
unfolding encode_node_assignment
decode-encode_node_assignment_example =
    decode-encode_node_assignment seventh (append_u32 uuid 7) refl (omega arith) refl

abbrev beat : HeartbeatPayload
beat = record { uuid = uuid; protocol_version = 1 }
