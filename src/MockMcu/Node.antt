-- ===== src/MockMcu/Node.antt =====
-- mock_mcu/include/remotebsp/mock_mcu/mock_node.hpp and mock_mcu/src/mock_node.cpp: the simulated
-- node, which reassembles requests, hands them to its core and keeps the responses for a repetition.
-- A call that throws returns its error beside the node that it leaves. The counters are 64 bits wide.
pub mod Calls
pub mod Cache
pub mod Bounds
pub mod Steps
pub mod Life
mod Examples
use remote_bsp.Prelude.{
  ℕ, ◌+◌, ◌-◌, ◌*◌, ◌/◌, ◌%◌, ◌^◌, ltb, leb, ◌==◌, not, ◌&&◌, ◌||◌, bit_or, Bool, true, false,
  Option, none, some, if◌then◌else◌, List, [], ◌∷◌, ◌++◌, length, Result, ok, err,
}
use remote_bsp.Prelude.Map.{Map, find, emplace, erase}
use remote_bsp.Bytes.{Bytes, bytes_eq}
use remote_bsp.Protocol.MessageType
use remote_bsp.Protocol.Command
use remote_bsp.Protocol.Packet.{
  Packet, PacketHeader, PacketError, new_packet, protocol_version, encode, decode,
}
use remote_bsp.Protocol.Discovery.{
  NodeIdentity, DiscoveryRequestPayload, NodeAssignment, HeartbeatPayload, DiscoveryPayloadError,
  decode_discovery_request, encode_node_identity, decode_node_assignment, encode_heartbeat,
}
use remote_bsp.Protocol.Fragmentation.Frame.{
  FragmentError, Fragment, decode_fragment, has_flag, fragment_last,
}
use remote_bsp.Protocol.Fragmentation.Split.{split, make_fragmenter}
use remote_bsp.Protocol.Fragmentation.Reassembler
use remote_bsp.Protocol.Fragmentation.Reassembler.{
  Reassembler, ReassemblyResult, ReassemblyStatus, in_progress, complete, duplicate,
}
use remote_bsp.MockMcu.RemoteCore.{RemoteCore, NodeInfo, Failure}
use remote_bsp.MockMcu.RemoteCore.Leases.{expire_leases, release_session}
use remote_bsp.MockMcu.RemoteCore.UartHandlers.{poll_uart_events}
use remote_bsp.MockMcu.RemoteCore.Handle.{handle}

pub record NodeReply : Type 0 where
  pub transfer_id : ℕ
  pub frames : List Bytes

pub data MockNodeError : Type 0 where
  invalid_cache_size conflicting_duplicate_request : MockNodeError

-- What a call throws.
pub data NodeFailure : Type 0 where
  node_failure : MockNodeError → NodeFailure
  core_failure : Failure → NodeFailure
  packet_failure : PacketError → NodeFailure
  discovery_failure : DiscoveryPayloadError → NodeFailure
  fragment_failure : FragmentError → NodeFailure
  reassembly_failure : Reassembler.Failure → NodeFailure
  invalid_argument : NodeFailure

pub record CachedRequest : Type 0 where
  pub request : Packet
  pub encoded_response : Bytes

-- The fragmenter is its MTU.
pub record MockNode : Type 0 where
  pub core : RemoteCore
  pub mtu : ℕ
  pub reassembler : Reassembler
  pub node_id : ℕ
  pub maximum_cached_requests : ℕ
  pub next_outbound_transfer_id : ℕ
  pub cache : Map CachedRequest
  pub cache_order : List ℕ
  pub executed_request_count : ℕ
  pub cached_response_count : ℕ

abbrev pub count_up : ℕ → ℕ
count_up n = (n + 1) % 2 ^ 64

-- `session_id << 32 | request_id`
unfoldable pub request_key : ℕ → ℕ → ℕ
request_key session_id request_id = bit_or (session_id * 2 ^ 32) request_id

unfoldable pub same_request : Packet → Packet → Bool
same_request left right =
    (left.header.version == right.header.version)
    && (left.header.message_type == right.header.message_type)
    && (left.header.command == right.header.command)
    && (left.header.session_id == right.header.session_id)
    && (left.header.request_id == right.header.request_id)
    && (left.header.object_id == right.header.object_id)
    && (left.header.flags == right.header.flags)
    && bytes_eq left.payload right.payload

-- `next_outbound_transfer_id_` behind an allocation, which gives the old one.
unfoldable pub next_transfer_id : ℕ → ℕ
next_transfer_id transfer_id =
    let next = (transfer_id + 1) % 2 ^ 16 in if next == 0 then 1 else next

abbrev pub allocated : MockNode → MockNode
allocated node = record node {
  next_outbound_transfer_id = next_transfer_id node.next_outbound_transfer_id;
}

-- The bytes of a packet under a transfer id.
unfoldable pub make_reply : ℕ → Bytes → ℕ → Result NodeFailure NodeReply
make_reply mtu bytes transfer_id = elim (split mtu bytes transfer_id) [
  | err e ↦ err (fragment_failure e)
  | ok frames ↦ ok (record { transfer_id = transfer_id; frames = frames })
]

-- An allocation of a transfer id, and the reply under it.
abbrev pub reply_with : MockNode → Bytes → Result NodeFailure NodeReply × MockNode
reply_with node bytes = (make_reply node.mtu bytes node.next_outbound_transfer_id, allocated node)

abbrev pub reply_outcome : Result NodeFailure NodeReply → Result NodeFailure (Option NodeReply)
reply_outcome (err e) = err e
reply_outcome (ok reply) = ok (some reply)

abbrev pub some_reply :
    Result NodeFailure NodeReply × MockNode → Result NodeFailure (Option NodeReply) × MockNode
some_reply (outcome, node) = (reply_outcome outcome, node)

-- `cache_.erase(cache_order_.front()); cache_order_.pop_front();`, of an order that is not empty
abbrev pub erase_front : List ℕ → Map CachedRequest → Map CachedRequest
erase_front [] cache = cache
erase_front (k ∷ order) cache = erase k cache

abbrev pub drop_front : List ℕ → List ℕ
drop_front [] = []
drop_front (k ∷ order) = order

unfoldable pub insert_cache : ℕ → CachedRequest → MockNode → MockNode
insert_cache key entry node = record node {
  cache = emplace key entry (
      if length node.cache == node.maximum_cached_requests
      then erase_front node.cache_order node.cache
      else node.cache);
  cache_order =
      (if length node.cache == node.maximum_cached_requests
        then drop_front node.cache_order
        else node.cache_order)
      ++ (key ∷ []);
}

abbrev pub response_to : Packet → ℕ → ℕ → Bytes → Packet
response_to request command object_id payload = record new_packet {
  header = record (new_packet.header) {
    version = protocol_version;
    message_type = MessageType.response;
    command = command;
    session_id = request.header.session_id;
    request_id = request.header.request_id;
    object_id = object_id;
  };
  payload = payload;
}

-- A request that is executed: its response, if there is one, and the node behind it.
unfoldable pub answer_discovery : MockNode → Packet → Result NodeFailure (Option Packet) × MockNode
answer_discovery node request =
    let info = node.core.node_info in
    elim (decode_discovery_request request.payload) [
      | err e ↦ (err (discovery_failure e), node)
      | ok discovery ↦
          if ltb info.protocol_version discovery.minimum_protocol_version
            || ltb discovery.maximum_protocol_version info.protocol_version
          then (ok none, node)
          else (
            ok (
                some (
                  response_to request Command.discovery_response 0 (
                    encode_node_identity (record {
                      uuid = info.uuid;
                      firmware_major = info.firmware_major;
                      firmware_minor = info.firmware_minor;
                      firmware_patch = info.firmware_patch;
                      board_type = info.board_type;
                      protocol_version = info.protocol_version;
                    })))),
            node,
          )
    ]

unfoldable pub answer_assignment : MockNode → Packet → Result NodeFailure (Option Packet) × MockNode
answer_assignment node request = elim (decode_node_assignment request.payload) [
  | err e ↦ (err (discovery_failure e), node)
  | ok assignment ↦
      if not (bytes_eq assignment.uuid node.core.node_info.uuid) then (ok none, node) else (
        ok (some (response_to request request.header.command assignment.node_id (0 ∷ []))),
        record node { node_id = assignment.node_id },
      )
]

unfoldable pub answer_core : MockNode → Packet → ℕ → Result NodeFailure (Option Packet) × MockNode
answer_core node request now =
    let (outcome, core) = handle node.core request now in
    elim outcome [
      | err e ↦ (err (core_failure e), record node { core = core })
      | ok response ↦ (ok (some response), record node { core = core })
    ]

unfoldable pub execute : MockNode → Packet → ℕ → Result NodeFailure (Option Packet) × MockNode
unfolding answer_discovery answer_assignment answer_core
execute node request now =
    if request.header.command == Command.discovery_request
    then answer_discovery node request
    else (if request.header.command == Command.node_assign
        then answer_assignment node request
        else answer_core node request now)

-- The end of `process_request`, behind the encoding of the response.
unfoldable pub cache_response :
    ℕ
    → Packet
    → MockNode
    → Result PacketError Bytes
    → Result NodeFailure (Option NodeReply) × MockNode
unfolding insert_cache make_reply
cache_response key request node (err e) = (err (packet_failure e), node)
cache_response key request node (ok encoded_response) = some_reply (
    reply_with
      (insert_cache key (record { request = request; encoded_response = encoded_response })
        (record node { executed_request_count = count_up node.executed_request_count }))
      encoded_response)

-- The end of `process_request`, behind the execution.
unfoldable pub keep_response :
    ℕ
    → Packet
    → Result NodeFailure (Option Packet) × MockNode
    → Result NodeFailure (Option NodeReply) × MockNode
unfolding cache_response
keep_response key request (err e, node) = (err e, node)
keep_response key request (ok none, node) = (ok none, node)
keep_response key request (ok (some response), node) =
    cache_response key request node (encode response)

-- A request whose key has an entry in the cache.
unfoldable pub repeat_response :
    MockNode → Packet → CachedRequest → Result NodeFailure (Option NodeReply) × MockNode
unfolding same_request make_reply
repeat_response node request found =
    if not (same_request found.request request)
    then (err (node_failure conflicting_duplicate_request), node)
    else some_reply (
        reply_with (record node { cached_response_count = count_up node.cached_response_count })
          found.encoded_response)

unfoldable pub process_request :
    MockNode → Packet → ℕ → Result NodeFailure (Option NodeReply) × MockNode
unfolding request_key execute keep_response repeat_response
process_request node request now =
    let key = request_key request.header.session_id request.header.request_id in
    elim (find key node.cache) [
      | none ↦ keep_response key request (execute node request now)
      | some found ↦ repeat_response node request found
    ]
