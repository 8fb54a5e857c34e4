-- ===== src/MockMcu/Node/Calls.antt =====
-- mock_mcu/src/mock_node.cpp: the calls of the simulated node around `process_request`.
use remote_bsp.Prelude.{
  ℕ, ◌+◌, ◌-◌, ◌/◌, ◌^◌, ◌==◌, not, ◌&&◌, ◌||◌, Bool, true, false, Option, none, some,
  if◌then◌else◌, List, [], ◌∷◌, length, Result, ok, err,
}
use remote_bsp.Prelude.Map.{Map}
use remote_bsp.Bytes.{Bytes}
use remote_bsp.Protocol.MessageType
use remote_bsp.Protocol.Command
use remote_bsp.Protocol.Packet.{Packet, new_packet, encode, decode}
use remote_bsp.Protocol.Discovery.{encode_heartbeat}
use remote_bsp.Protocol.Fragmentation.Frame.{
  FragmentError, Fragment, decode_fragment, has_flag, fragment_last,
}
use remote_bsp.Protocol.Fragmentation.Split.{make_fragmenter}
use remote_bsp.Protocol.Fragmentation.Reassembler
use remote_bsp.Protocol.Fragmentation.Reassembler.{
  Reassembler, ReassemblyResult, ReassemblyStatus, in_progress, complete, duplicate,
}
use remote_bsp.MockMcu.RemoteCore.{RemoteCore}
use remote_bsp.MockMcu.RemoteCore.Leases.{expire_leases, release_session}
use remote_bsp.MockMcu.RemoteCore.UartHandlers.{poll_uart_events}
use remote_bsp.MockMcu.Node.{
  NodeReply, NodeFailure, MockNode, CachedRequest, node_failure, packet_failure, fragment_failure,
  reassembly_failure, invalid_argument, invalid_cache_size, allocated, make_reply, reply_with,
  process_request,
}

unfoldable pub new_node : RemoteCore → ℕ → ℕ → ℕ → ℕ → Result NodeFailure MockNode
unfolding Reassembler.new_reassembler
new_node core mtu node_id reassembly_timeout maximum_cached_requests = elim (make_fragmenter mtu) [
  | err e ↦ err (fragment_failure e)
  | ok m ↦ elim (Reassembler.new_reassembler mtu reassembly_timeout) [
    | err e ↦ err (reassembly_failure e)
    | ok reassembler ↦
        if maximum_cached_requests == 0
        then err (node_failure invalid_cache_size)
        else ok (record {
          core = core;
          mtu = mtu;
          reassembler = reassembler;
          node_id = node_id;
          maximum_cached_requests = maximum_cached_requests;
          next_outbound_transfer_id = 1;
          cache = [];
          cache_order = [];
          executed_request_count = 0;
          cached_response_count = 0;
        })
  ]
]

-- Whether a frame is the last of its transfer.
abbrev pub is_last_frame : Result FragmentError Fragment → Bool
is_last_frame (err e) = false
is_last_frame (ok fragment) = has_flag fragment.flags fragment_last

abbrev pub is_complete : ReassemblyStatus → Bool
is_complete complete = true
is_complete in_progress = false
is_complete duplicate = false

abbrev pub is_duplicate : ReassemblyStatus → Bool
is_duplicate duplicate = true
is_duplicate in_progress = false
is_duplicate complete = false

unfoldable pub handle_packet :
    MockNode → ℕ → Bool → Option Bytes → Result NodeFailure (Option NodeReply) × MockNode
unfolding process_request
handle_packet node now wanted none = (ok none, node)
handle_packet node now wanted (some bytes) =
    if not wanted then (ok none, node) else elim (decode bytes) [
      | err e ↦ (err (packet_failure e), node)
      | ok request ↦ process_request node request now
    ]

-- A frame that the reassembler has accepted decodes, so that the test of its flags throws nothing.
unfoldable pub handle_frame :
    MockNode → ℕ → Bytes → ℕ → Result NodeFailure (Option NodeReply) × MockNode
unfolding handle_packet
handle_frame node stream_id frame now =
    let (outcome, reassembler) = Reassembler.accept node.reassembler stream_id frame now in
    let received = record node { reassembler = reassembler } in
    elim outcome [
      | err e ↦ (err (reassembly_failure e), received)
      | ok result ↦
          handle_packet received now
            (is_complete result.status
              || (is_duplicate result.status && is_last_frame (decode_fragment frame node.mtu)))
            result.packet
    ]

unfoldable pub make_heartbeat : MockNode → Result NodeFailure NodeReply × MockNode
unfolding make_reply
make_heartbeat node =
    let heartbeat = record new_packet {
      header = record (new_packet.header) {
        message_type = MessageType.event;
        command = Command.heartbeat;
        object_id = node.node_id;
      };
      payload = encode_heartbeat (record {
        uuid = node.core.node_info.uuid;
        protocol_version = node.core.node_info.protocol_version;
      });
    } in
    elim (encode heartbeat) [
      | err e ↦ (err (packet_failure e), allocated node)
      | ok bytes ↦ reply_with node bytes
    ]

-- The loop over the events.
unfoldable pub send_events : MockNode → List Packet → Result NodeFailure (List NodeReply) × MockNode
unfolding make_reply
send_events node [] = (ok [], node)
send_events node (event ∷ events) =
    let (later, sent) = send_events (allocated node) events in
    elim (encode event) [
      | err e ↦ (err (packet_failure e), allocated node)
      | ok bytes ↦ elim (make_reply node.mtu bytes node.next_outbound_transfer_id) [
        | err e ↦ (err e, allocated node)
        | ok reply ↦ elim later [
          | err e ↦ (err e, sent)
          | ok replies ↦ (ok (reply ∷ replies), sent)
        ]
      ]
    ]

unfoldable pub poll_node_events : MockNode → ℕ → Result NodeFailure (List NodeReply) × MockNode
unfolding send_events
poll_node_events node maximum_payload = elim (poll_uart_events node.core maximum_payload) [
  | none ↦ (err invalid_argument, node)
  | some polled ↦ send_events (record node { core = polled.1 }) polled.0
]

unfoldable pub expire : MockNode → ℕ → ℕ × MockNode
expire node now =
    let (transfers, reassembler) = Reassembler.expire node.reassembler now in
    let (leases, core) = expire_leases now node.core in
    (transfers + leases, record node { reassembler = reassembler; core = core })

-- `iterator->first >> 32U == session_id`
abbrev pub is_of_session : ℕ → ℕ → Bool
is_of_session session_id key = key / 2 ^ 32 == session_id

unfoldable pub drop_cached : ℕ → Map CachedRequest → Map CachedRequest
drop_cached session_id [] = []
drop_cached session_id ((key, entry) ∷ cache) =
    let rest = drop_cached session_id cache in
    if is_of_session session_id key then rest else (key, entry) ∷ rest

unfoldable pub drop_order : ℕ → List ℕ → List ℕ
drop_order session_id [] = []
drop_order session_id (key ∷ order) =
    let rest = drop_order session_id order in
    if is_of_session session_id key then rest else key ∷ rest

unfoldable pub clear_session : MockNode → ℕ → ℕ × MockNode
unfolding drop_cached drop_order
clear_session node session_id =
    let kept = drop_cached session_id node.cache in
    let (released, core) = release_session session_id node.core in
    (
      (length node.cache - length kept) + released,
      record node {
        cache = kept;
        cache_order = drop_order session_id node.cache_order;
        core = core;
      },
    )
