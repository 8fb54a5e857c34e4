-- ===== src/Toolbusd/NodeRegistry.antt =====
-- toolbusd/include/remotebsp/toolbusd/node_registry.hpp and toolbusd/src/node_registry.cpp: the
-- nodes that answered discovery, by UUID. The hash map is an association list in the order of
-- insertion, on which only `find_by_node_id` and the list of `expire` depend. A time point and a
-- duration are numbers of ticks. A call that throws returns its error beside the object.
pub mod Table
pub mod Handshake
pub mod Expiry
mod Examples
use remote_bsp.Prelude.{
  ℕ, ◌+◌, ltb, leb, ◌==◌, not, ◌&&◌, ◌||◌, Bool, true, false, if◌then◌else◌, Option, none, some,
  List, [], ◌∷◌, length, Result, ok, err,
}
use remote_bsp.Bytes.{Bytes, bytes_eq}
use remote_bsp.Protocol.Packet.{Packet, new_packet}
use remote_bsp.Protocol.Command
use remote_bsp.Protocol.MessageType
use remote_bsp.Protocol.Discovery.{
  NodeUuid, NodeIdentity, HeartbeatPayload, DiscoveryPayloadError, encode_discovery_request,
  decode_node_identity, encode_node_assignment, decode_heartbeat,
}

pub data NodeUpdate : Type 0 where
  added updated : NodeUpdate

pub record NodeRecord : Type 0 where
  pub identity : NodeIdentity
  pub node_id : ℕ
  pub online : Bool
  pub assigned : Bool
  pub last_seen : ℕ

abbrev pub Nodes : Type 0
Nodes = List (NodeUuid × NodeRecord)

pub record NodeRegistry : Type 0 where
  pub offline_timeout : ℕ
  pub nodes : Nodes

-- `std::invalid_argument`, or a `DiscoveryPayloadException`
pub data RegistryError : Type 0 where
  invalid_argument : RegistryError
  bad_payload : DiscoveryPayloadError → RegistryError

-- The constructor.
unfoldable pub new_node_registry : ℕ → Result RegistryError NodeRegistry
new_node_registry offline_timeout =
    if offline_timeout == 0
    then err invalid_argument
    else ok (record { offline_timeout = offline_timeout; nodes = [] })

-- `nodes_.find`
unfoldable pub find_node : NodeUuid → Nodes → Option NodeRecord
find_node u [] = none
find_node u ((w, n) ∷ rest) = elim (bytes_eq w u) [ true ↦ some n | false ↦ find_node u rest ]

-- The node of a UUID replaced, or added behind the others.
unfoldable pub put_node : NodeUuid → NodeRecord → Nodes → Nodes
put_node u n [] = (u, n) ∷ []
put_node u n ((w, o) ∷ rest) = elim (bytes_eq w u) [
  | true ↦ (w, n) ∷ rest
  | false ↦ (w, o) ∷ put_node u n rest
]

abbrev pub store_node : NodeRegistry → NodeUuid → NodeRecord → NodeRegistry
store_node r u n = record r { nodes = put_node u n r.nodes }

-- A packet that requests `command`.
abbrev pub request_packet : ℕ → ℕ → Bytes → Packet
request_packet command request_id payload = record {
  header = record (new_packet.header) {
    message_type = MessageType.request;
    command = command;
    request_id = request_id;
  };
  payload = payload;
}

unfoldable pub make_discovery_request : ℕ → ℕ → ℕ → Result RegistryError Packet
make_discovery_request request_id minimum_version maximum_version =
    elim (encode_discovery_request (record {
      minimum_protocol_version = minimum_version;
      maximum_protocol_version = maximum_version;
    })) [
      | err e ↦ err (bad_payload e)
      | ok payload ↦ ok (request_packet Command.discovery_request request_id payload)
    ]

-- The node of an identity that was just received.
unfoldable pub seen_node : NodeIdentity → ℕ → Option NodeRecord → NodeRecord
seen_node identity now none = record {
  identity = identity;
  node_id = 0;
  online = true;
  assigned = false;
  last_seen = now;
}
seen_node identity now (some n) = record n { identity = identity; online = true; last_seen = now }

abbrev pub update_of : Option NodeRecord → NodeUpdate
update_of none = added
update_of (some n) = updated

unfoldable pub accept_discovery_response :
    NodeRegistry → Packet → ℕ → Result RegistryError NodeUpdate × NodeRegistry
unfolding seen_node
accept_discovery_response r response now =
    if not (response.header.message_type == MessageType.response)
      || not (response.header.command == Command.discovery_response)
    then (err invalid_argument, r)
    else elim (decode_node_identity response.payload) [
      | err e ↦ (err (bad_payload e), r)
      | ok identity ↦
          let found = find_node identity.uuid r.nodes in
          (ok (update_of found), store_node r identity.uuid (seen_node identity now found))
    ]

unfoldable pub make_node_assignment :
    NodeRegistry → NodeUuid → ℕ → ℕ → Result RegistryError Packet × NodeRegistry
make_node_assignment r u node_id request_id = elim (find_node u r.nodes) [
  | none ↦ (err invalid_argument, r)
  | some n ↦ elim (encode_node_assignment (record { uuid = u; node_id = node_id })) [
    | err e ↦ (err (bad_payload e), r)
    | ok payload ↦ (
      ok (request_packet Command.node_assign request_id payload),
      store_node r u (record n { node_id = node_id; assigned = false }),
    )
  ]
]

unfoldable pub mark_assignment_unconfirmed : NodeRegistry → NodeUuid → Bool × NodeRegistry
mark_assignment_unconfirmed r u = elim (find_node u r.nodes) [
  | none ↦ (false, r)
  | some n ↦ (true, store_node r u (record n { assigned = false }))
]

-- The node behind a heartbeat, whose header names an object id.
unfoldable pub beating_node : NodeRecord → ℕ → ℕ → NodeRecord
beating_node n object_id now =
    let alive : NodeRecord = record n { online = true; last_seen = now } in
    if object_id == 0 then alive else record alive { node_id = object_id; assigned = true }

-- A heartbeat that was decoded.
unfoldable pub enter_heartbeat :
    NodeRegistry → HeartbeatPayload → ℕ → ℕ → Option NodeRecord → Bool × NodeRegistry
unfolding beating_node
enter_heartbeat r beat object_id now none = (false, r)
enter_heartbeat r beat object_id now (some n) =
    if not (n.identity.protocol_version == beat.protocol_version)
    then (false, r)
    else (true, store_node r beat.uuid (beating_node n object_id now))

unfoldable pub accept_heartbeat :
    NodeRegistry → Packet → ℕ → Result RegistryError Bool × NodeRegistry
unfolding enter_heartbeat
accept_heartbeat r heartbeat now =
    if not (heartbeat.header.message_type == MessageType.event)
      || not (heartbeat.header.command == Command.heartbeat)
    then (ok false, r)
    else elim (decode_heartbeat heartbeat.payload) [
      | err e ↦ (err (bad_payload e), r)
      | ok beat ↦
          let (accepted, left) =
            enter_heartbeat r beat heartbeat.header.object_id now (find_node beat.uuid r.nodes) in
          (ok accepted, left)
    ]

-- `online && now - last_seen >= offline_timeout_`, a comparison of signed durations
abbrev pub is_silent : ℕ → ℕ → NodeRecord → Bool
is_silent offline_timeout now n = n.online && leb (n.last_seen + offline_timeout) now

-- The loop of `expire`: the UUIDs that go offline, and the nodes.
unfoldable pub expire_nodes : ℕ → ℕ → Nodes → List NodeUuid × Nodes
expire_nodes offline_timeout now [] = ([], [])
expire_nodes offline_timeout now ((u, n) ∷ rest) =
    let (offline, left) = expire_nodes offline_timeout now rest in
    if is_silent offline_timeout now n
    then (u ∷ offline, (u, record n { online = false }) ∷ left)
    else (offline, (u, n) ∷ left)

unfoldable pub expire : NodeRegistry → ℕ → List NodeUuid × NodeRegistry
unfolding expire_nodes
expire r now =
    let (offline, left) = expire_nodes r.offline_timeout now r.nodes in
    (offline, record r { nodes = left })

unfoldable pub find_by_node_id : ℕ → Nodes → Option NodeRecord
find_by_node_id node_id [] = none
find_by_node_id node_id ((u, n) ∷ rest) =
    let found = find_by_node_id node_id rest in if n.node_id == node_id then some n else found

abbrev pub size : NodeRegistry → ℕ
size r = length r.nodes

abbrev pub bit : Bool → ℕ
bit true = 1
bit false = 0

unfoldable pub online_nodes : Nodes → ℕ
online_nodes [] = 0
online_nodes ((u, n) ∷ rest) = bit n.online + online_nodes rest

abbrev pub online_count : NodeRegistry → ℕ
online_count r = online_nodes r.nodes
