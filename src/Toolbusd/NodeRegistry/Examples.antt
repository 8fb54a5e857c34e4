-- ===== src/Toolbusd/NodeRegistry/Examples.antt =====
-- One node that joins a registry and goes silent.
use remote_bsp.Prelude.{◌≡◌, ◌+◌, refl, [], ◌∷◌, length, ok, some, true, false, arith}
use remote_bsp.Protocol.Packet.{Packet, new_packet}
use remote_bsp.Protocol.Discovery.{
  NodeIdentity, encode_node_identity, encode_heartbeat, decode_node_assignment,
}
use remote_bsp.Toolbusd.NodeRegistry.{
  NodeRegistry, find_node, make_node_assignment, accept_heartbeat, expire, online_count,
}
use remote_bsp.Toolbusd.NodeRegistry.Handshake.{
  IdentityFits, beat_of, node_of, responded, with_id, node-joins,
}
use remote_bsp.Toolbusd.NodeRegistry.Expiry.{expired_option, expire-online}

abbrev node : NodeIdentity
node = record {
  uuid = 1 ∷ 2 ∷ 3 ∷ 4 ∷ 5 ∷ 6 ∷ 7 ∷ 8 ∷ 9 ∷ 10 ∷ 11 ∷ 12 ∷ 13 ∷ 14 ∷ 15 ∷ 16 ∷ [];
  firmware_major = 1;
  firmware_minor = 4;
  firmware_patch = 300;
  board_type = 0x72;
  protocol_version = 1;
}

node-Fits : IdentityFits node
node-Fits = record {
  uuid = refl;
  firmware_major = omega arith;
  firmware_minor = omega arith;
  firmware_patch = omega arith;
  board_type = omega arith;
}

abbrev empty : NodeRegistry
empty = record { offline_timeout = 2000; nodes = [] }

abbrev response : Packet
response = record {
  header = record (new_packet.header) { message_type = 2; command = 2 };
  payload = encode_node_identity node;
}

abbrev heartbeat : Packet
heartbeat = record {
  header = record (new_packet.header) { message_type = 3; command = 4; object_id = 7 };
  payload = encode_heartbeat (beat_of node);
}

node-joins_example :
    (request : Packet) × ((make_node_assignment (responded empty response 10) node.uuid 7 99).0
      ≡ ok request)
    × (decode_node_assignment request.payload ≡ ok (record { uuid = node.uuid; node_id = 7 }))
    × (find_node node.uuid (with_id (responded empty response 10) node.uuid 7 99).nodes
        ≡ some (node_of node 7 false 10))
    × ((accept_heartbeat (with_id (responded empty response 10) node.uuid 7 99) heartbeat 20).0
        ≡ ok true)
    × (find_node node.uuid
          (accept_heartbeat
            (with_id (responded empty response 10) node.uuid 7 99)
            heartbeat
            20).1.nodes
        ≡ some (node_of node 7 true 20))
node-joins_example =
    node-joins empty node response heartbeat 7 99 10 20 node-Fits
      (record { message_type = refl; command = refl; payload = refl })
      (record { message_type = refl; command = refl; object_id = refl; payload = refl })
      (omega arith) (omega arith)

abbrev joined : NodeRegistry
joined = record { offline_timeout = 2000; nodes = (node.uuid, node_of node 7 true 20) ∷ [] }

expire-online_example :
    (find_node node.uuid (expire joined 2020).1.nodes
      ≡ expired_option 2000 2020 (find_node node.uuid joined.nodes))
    × (online_count (expire joined 2020).1 + length (expire joined 2020).0 ≡ online_count joined)
expire-online_example = expire-online joined 2020 node.uuid
