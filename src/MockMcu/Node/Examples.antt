-- ===== src/MockMcu/Node/Examples.antt =====
-- A node that is asked twice for an echo, and one that receives the echo in a frame.
use remote_bsp.Prelude.{
  ℕ, ◌≤◌, ◌==◌, List, length, any, ◌≡◌, refl, Option, none, some, false, err, [], ◌∷◌, ok, Result,
  arith,
}
use remote_bsp.Bytes.{Bytes}
use remote_bsp.Protocol.Command
use remote_bsp.Prelude.Map.{Distinct}
use remote_bsp.Protocol.Packet.{Packet, PacketError, new_packet, encode}
use remote_bsp.Protocol.Fragmentation.Split.{split}
use remote_bsp.MockMcu.Node.Calls.{new_node}
use remote_bsp.MockMcu.Node.Life.{
  Call, receiving, beating, expiring, clearing, after_calls, has_key, after_calls-bounded,
}
use remote_bsp.MockMcu.RemoteCore.{RemoteCore}
use remote_bsp.MockMcu.Node.{
  MockNode, NodeReply, NodeFailure, process_request, make_reply, reply_outcome, request_key,
}
use remote_bsp.MockMcu.Node.Cache.{process_request-again}

abbrev node : MockNode
node = record {
  core = record {
    node_info = record {
      uuid = [];
      firmware_major = 1;
      firmware_minor = 0;
      firmware_patch = 0;
      board_type = 7;
      protocol_version = 1;
    };
    capabilities = 0;
    gpio_bsp = none;
    uart_bsp = none;
    motion = none;
    resources = [];
    contracts = [];
    leases = [];
    gpio_objects = [];
    uart_objects = [];
    next_object_id = 1;
    next_lease_id = 1;
    bootloader_requested = false;
  };
  mtu = 64;
  reassembler = record { mtu = 64; timeout = 500; transfers = [] };
  node_id = 3;
  maximum_cached_requests = 2;
  next_outbound_transfer_id = 1;
  cache = [];
  cache_order = [];
  executed_request_count = 0;
  cached_response_count = 0;
}

abbrev ping : Packet
ping = record {
  header = record (new_packet.header) { command = Command.ping; session_id = 5; request_id = 1 };
  payload = 42 ∷ [];
}

abbrev sent : MockNode
sent = (process_request node ping 0).1

abbrev reply_of : Result NodeFailure (Option NodeReply) → NodeReply
reply_of (ok (some r)) = r
reply_of (ok none) = record { transfer_id = 0; frames = [] }
reply_of (err e) = record { transfer_id = 0; frames = [] }

abbrev reply : NodeReply
reply = reply_of (process_request node ping 0).0

process_request-again_example :
    ((bytes : Bytes) × (make_reply sent.mtu bytes reply.transfer_id ≡ ok reply)
      × ((process_request sent ping 900).0
          ≡ reply_outcome (make_reply sent.mtu bytes sent.next_outbound_transfer_id)))
    × ((process_request sent ping 900).1.core ≡ sent.core)
    × ((process_request sent ping 900).1.executed_request_count ≡ sent.executed_request_count)
unfolding process_request remote_bsp.Prelude.Map.find remote_bsp.MockMcu.RemoteCore.Handle.handle
    remote_bsp.MockMcu.RemoteCore.ResourceHandlers.handle_ping remote_bsp.Protocol.Packet.encode
    remote_bsp.Protocol.Fragmentation.Split.split remote_bsp.Protocol.Fragmentation.Split.split_from
    remote_bsp.Protocol.Fragmentation.Frame.encode_fragment
    remote_bsp.Protocol.Fragmentation.Frame.reserved_flags
    remote_bsp.Protocol.Fragmentation.Split.fragment_at
process_request-again_example = process_request-again node ping 0 900 reply tt refl

abbrev first_frame : Result PacketError Bytes → Bytes
first_frame (err e) = []
first_frame (ok bytes) = elim (split 64 bytes 1) [
  | err e ↦ []
  | ok [] ↦ []
  | ok (frame ∷ frames) ↦ frame
]

abbrev calls : List Call
calls =
    receiving 9 (first_frame (encode ping)) 10
    ∷ beating
    ∷ receiving 9 (first_frame (encode ping)) 20
    ∷ expiring 700
    ∷ clearing 5
    ∷ []

after_calls-bounded_example :
    (length (after_calls node calls).cache ≤ 2)
    × Distinct (after_calls node calls).cache
    × (length (after_calls node calls).cache_order ≡ length (after_calls node calls).cache)
    × ((k : ℕ)
        → any (λ j. j == k) (after_calls node calls).cache_order
          ≡ has_key k (after_calls node calls).cache)
unfolding new_node remote_bsp.Protocol.Fragmentation.Split.make_fragmenter
    remote_bsp.Protocol.Fragmentation.Reassembler.new_reassembler
    remote_bsp.Protocol.Fragmentation.Frame.validate_mtu
after_calls-bounded_example = after_calls-bounded node.core 64 3 500 2 node calls refl

-- The echo is kept under its session and its request until the session ends.
kept_keys :
    ((after_calls node (receiving 9 (first_frame (encode ping)) 10 ∷ [])).cache_order
      ≡ request_key 5 1 ∷ [])
    × ((after_calls node calls).cache_order ≡ [])
unfolding after_calls process_request request_key remote_bsp.Prelude.Map.find
    remote_bsp.MockMcu.RemoteCore.Handle.handle remote_bsp.Protocol.Packet.encode
    remote_bsp.Protocol.Packet.decode remote_bsp.Bytes.read_u32
    remote_bsp.MockMcu.RemoteCore.ResourceHandlers.handle_ping
    remote_bsp.Protocol.Fragmentation.Split.split remote_bsp.Protocol.Fragmentation.Split.split_from
    remote_bsp.Protocol.Fragmentation.Frame.encode_fragment
    remote_bsp.Protocol.Fragmentation.Frame.decode_fragment
    remote_bsp.Protocol.Fragmentation.Frame.reserved_flags
    remote_bsp.Protocol.Fragmentation.Split.fragment_at
    remote_bsp.Protocol.Fragmentation.Reassembler.accept
    remote_bsp.Protocol.Fragmentation.Frame.encoded_length
    remote_bsp.Protocol.Fragmentation.Frame.length_and_flags remote_bsp.Bytes.read_u16
    remote_bsp.Prelude.Map.keep_if remote_bsp.Protocol.Fragmentation.Reassembler.try_complete
    remote_bsp.Protocol.Fragmentation.Reassembler.add_piece remote_bsp.Prelude.Map.assign
    remote_bsp.Protocol.Crc32.crc32 remote_bsp.Protocol.Discovery.encode_heartbeat
    remote_bsp.Protocol.Fragmentation.Reassembler.key
kept_keys = (refl, refl)
