-- ===== src/Toolbusd/NodeRegistry/Handshake.antt =====
-- toolbusd/src/node_registry.cpp: the discovery response of a node, the assignment of its id, and its
-- first heartbeat.
use remote_bsp.Prelude.{
  ℕ, ◌≡◌, ◌<◌, ◌≤◌, ◌^◌, ◌==◌, refl, ap, ◌∙◌, Bool, true, false, Option, none, some, length, Result,
  ok, arith,
}
use remote_bsp.Bytes.{append_u32}
use remote_bsp.Protocol.Packet.{Packet}
use remote_bsp.Protocol.Command
use remote_bsp.Protocol.MessageType
use remote_bsp.Protocol.Discovery.{
  NodeUuid, uuid_size, NodeIdentity, HeartbeatPayload, encode_node_identity, decode_node_identity,
  encode_node_assignment, decode_node_assignment, encode_heartbeat, decode_heartbeat,
}
use remote_bsp.Protocol.Discovery.RoundTrip.{
  decode-encode_node_identity, decode-encode_node_assignment, decode-encode_heartbeat,
}
use remote_bsp.Toolbusd.NodeRegistry.{
  NodeRecord, NodeRegistry, RegistryError, find_node, store_node, request_packet, seen_node,
  update_of, accept_discovery_response, beating_node, make_node_assignment, accept_heartbeat,
  enter_heartbeat,
}
use remote_bsp.Toolbusd.NodeRegistry.Table.{find_node-put_node_self}

-- An identity that fits the wire.
pub record IdentityFits (i : NodeIdentity) : Type 0 where
  pub uuid : length i.uuid ≡ uuid_size
  pub firmware_major : i.firmware_major < 2 ^ 16
  pub firmware_minor : i.firmware_minor < 2 ^ 16
  pub firmware_patch : i.firmware_patch < 2 ^ 16
  pub board_type : i.board_type < 2 ^ 32

-- The discovery response of a node.
pub record IsDiscoveryResponse (i : NodeIdentity) (p : Packet) : Type 0 where
  pub message_type : p.header.message_type ≡ MessageType.response
  pub command : p.header.command ≡ Command.discovery_response
  pub payload : p.payload ≡ encode_node_identity i

abbrev pub beat_of : NodeIdentity → HeartbeatPayload
beat_of i = record { uuid = i.uuid; protocol_version = i.protocol_version }

-- A heartbeat of a node, whose header names its id.
pub record IsHeartbeat (i : NodeIdentity) (node_id : ℕ) (p : Packet) : Type 0 where
  pub message_type : p.header.message_type ≡ MessageType.event
  pub command : p.header.command ≡ Command.heartbeat
  pub object_id : p.header.object_id ≡ node_id
  pub payload : p.payload ≡ encode_heartbeat (beat_of i)

is_equal : (a b : ℕ) → a ≡ b → (a == b) ≡ true
is_equal a b h = ground arith

discovered :
    (r : NodeRegistry) (i : NodeIdentity) (p : Packet) (now : ℕ)
    → IdentityFits i
    → IsDiscoveryResponse i p
    → accept_discovery_response r p now ≡ (
      ok (update_of (find_node i.uuid r.nodes)),
      store_node r i.uuid (seen_node i now (find_node i.uuid r.nodes)),
    )
unfolding accept_discovery_response
discovered r i p now f h =
    rw
      (
        is_equal p.header.message_type MessageType.response h.message_type,
        is_equal p.header.command Command.discovery_response h.command,
        ap decode_node_identity h.payload
            ∙ decode-encode_node_identity i f.uuid f.firmware_major f.firmware_minor
                f.firmware_patch f.board_type,
      )
      refl

encode_node_assignment_lem :
    (u : NodeUuid) (node_id : ℕ)
    → 1 ≤ node_id
    → encode_node_assignment (record { uuid = u; node_id = node_id }) ≡ ok (append_u32 u node_id)
unfolding encode_node_assignment
encode_node_assignment_lem u node_id h = ground arith

assigned_node :
    (r : NodeRegistry) (u : NodeUuid) (node_id request_id : ℕ) (n : NodeRecord)
    → 1 ≤ node_id
    → find_node u r.nodes ≡ some n
    → make_node_assignment r u node_id request_id ≡ (
      ok (request_packet Command.node_assign request_id (append_u32 u node_id)),
      store_node r u (record n { node_id = node_id; assigned = false }),
    )
unfolding make_node_assignment
assigned_node r u node_id request_id n h found =
    rw (found, make_node_assignment, encode_node_assignment_lem u node_id h) refl

abbrev reported : Bool × NodeRegistry → Result RegistryError Bool × NodeRegistry
reported (accepted, left) = (ok accepted, left)

heard :
    (r : NodeRegistry) (i : NodeIdentity) (p : Packet) (now node_id : ℕ) (n : NodeRecord)
    → length i.uuid ≡ uuid_size
    → IsHeartbeat i node_id p
    → find_node i.uuid r.nodes ≡ some n
    → n.identity.protocol_version ≡ i.protocol_version
    → accept_heartbeat r p now ≡ (ok true, store_node r i.uuid (beating_node n node_id now))
unfolding accept_heartbeat enter_heartbeat
heard r i p now node_id n f h found version =
    rw
      (
        is_equal p.header.message_type MessageType.event h.message_type,
        is_equal p.header.command Command.heartbeat h.command,
        ap decode_heartbeat h.payload ∙ decode-encode_heartbeat (beat_of i) f,
      )
      (ap (λ o. reported (enter_heartbeat r (beat_of i) p.header.object_id now o)) found
        ∙ rw (is_equal n.identity.protocol_version i.protocol_version version, enter_heartbeat)
            (ap (λ j. (ok true, store_node r i.uuid (beating_node n j now))) h.object_id))

-- The object behind a discovery response, an assignment and a heartbeat of one node.
abbrev pub responded : NodeRegistry → Packet → ℕ → NodeRegistry
responded r response now = (accept_discovery_response r response now).1

abbrev pub with_id : NodeRegistry → NodeUuid → ℕ → ℕ → NodeRegistry
with_id r u node_id request_id = (make_node_assignment r u node_id request_id).1

-- A node under an id, before and after the heartbeat that confirms it.
abbrev pub node_of : NodeIdentity → ℕ → Bool → ℕ → NodeRecord
node_of i node_id assigned last_seen = record {
  identity = i;
  node_id = node_id;
  online = true;
  assigned = assigned;
  last_seen = last_seen;
}

assigned_seen_node :
    (i : NodeIdentity) (now node_id : ℕ) (o : Option NodeRecord)
    → record (seen_node i now o) { node_id = node_id; assigned = false }
      ≡ node_of i node_id false now
unfolding seen_node
assigned_seen_node i now node_id none = refl
assigned_seen_node i now node_id (some n) = refl

confirmed :
    (i : NodeIdentity) (node_id now later : ℕ)
    → 1 ≤ node_id
    → beating_node (node_of i node_id false now) node_id later ≡ node_of i node_id true later
unfolding beating_node
confirmed i node_id now later h = ground arith

-- A node joins, whatever the registry knew of it: its discovery response is accepted, then its
-- assignment is made under a node id from 1 to 2^32 - 1, then its first heartbeat with that id
-- comes. The assignment is a packet whose payload decodes to the UUID and the id. Until the heartbeat
-- the id is not confirmed; after it the node is online, assigned, under the id and the identity of
-- its response, and was last seen at the heartbeat.
pub node-joins :
    (r : NodeRegistry) (i : NodeIdentity) (response heartbeat : Packet)
    (node_id request_id now later : ℕ)
    → IdentityFits i
    → IsDiscoveryResponse i response
    → IsHeartbeat i node_id heartbeat
    → 1 ≤ node_id
    → node_id < 2 ^ 32
    → (request : Packet) × ((make_node_assignment
          (responded r response now)
          i.uuid
          node_id
          request_id).0
        ≡ ok request)
      × (decode_node_assignment request.payload ≡ ok (record { uuid = i.uuid; node_id = node_id }))
      × (find_node i.uuid (with_id (responded r response now) i.uuid node_id request_id).nodes
          ≡ some (node_of i node_id false now))
      × ((accept_heartbeat
            (with_id (responded r response now) i.uuid node_id request_id)
            heartbeat
            later).0
          ≡ ok true)
      × (find_node i.uuid
            (accept_heartbeat
              (with_id (responded r response now) i.uuid node_id request_id)
              heartbeat
              later).1.nodes
          ≡ some (node_of i node_id true later))
node-joins r i response heartbeat node_id request_id now later f hr hb low high = (
  request_packet Command.node_assign request_id (append_u32 i.uuid node_id),
  ap (λ w. w.0) second,
  decode-encode_node_assignment (record { uuid = i.uuid; node_id = node_id })
      (append_u32 i.uuid node_id) f.uuid high encoded,
  known,
  ap (λ w. w.0) third,
  ap (λ w. find_node i.uuid w.1.nodes) third
      ∙ find_node-put_node_self i.uuid (beating_node (node_of i node_id false now) node_id later)
          r2.nodes
      ∙ ap some (confirmed i node_id now later low),
)
  where
    r1 : NodeRegistry
    r1 = responded r response now

    r2 : NodeRegistry
    r2 = with_id r1 i.uuid node_id request_id

    n : NodeRecord
    n = seen_node i now (find_node i.uuid r.nodes)

    encoded :
        encode_node_assignment (record { uuid = i.uuid; node_id = node_id })
        ≡ ok (append_u32 i.uuid node_id)
    encoded = encode_node_assignment_lem i.uuid node_id low

    found : find_node i.uuid r1.nodes ≡ some n
    found =
        ap (λ w. find_node i.uuid w.1.nodes) (discovered r i response now f hr)
        ∙ find_node-put_node_self i.uuid n r.nodes

    second : make_node_assignment r1 i.uuid node_id request_id ≡ (
      ok (request_packet Command.node_assign request_id (append_u32 i.uuid node_id)),
      store_node r1 i.uuid (record n { node_id = node_id; assigned = false }),
    )
    second = assigned_node r1 i.uuid node_id request_id n low found

    known : find_node i.uuid r2.nodes ≡ some (node_of i node_id false now)
    known =
        ap (λ w. find_node i.uuid w.1.nodes) second
        ∙ find_node-put_node_self i.uuid (record n { node_id = node_id; assigned = false }) r1.nodes
        ∙ ap some (assigned_seen_node i now node_id (find_node i.uuid r.nodes))

    third :
        accept_heartbeat r2 heartbeat later
        ≡ (ok true, store_node r2 i.uuid (beating_node (node_of i node_id false now) node_id later))
    third = heard r2 i heartbeat later node_id (node_of i node_id false now) f.uuid hb known refl
