-- ===== src/Protocol/Discovery/RoundTrip.antt =====
-- The payloads of protocol/src/discovery.cpp, encoded and decoded again.
use remote_bsp.Prelude.{ℕ, ◌^◌, ◌<◌, ◌≡◌, refl, [], ◌∷◌, ◌++◌, length, ok, arith}
use remote_bsp.Bytes.{Bytes, append_u16, append_u32}
use remote_bsp.Bytes.Laws.{le16, le32, read_u16-le16, read_u32-le32}
use remote_bsp.Protocol.Discovery.{
  DiscoveryRequestPayload, NodeIdentity, NodeAssignment, HeartbeatPayload, uuid_size,
  encode_discovery_request, decode_discovery_request, encode_node_identity, decode_node_identity,
  encode_node_assignment, decode_node_assignment, encode_heartbeat, decode_heartbeat,
}

-- 16 bytes as one list, so that what stands behind them is at known positions.
data Sixteen : Bytes → Type 0 where
  sixteen :
      (a b c d e f g h i j k l m n o p : ℕ)
      → Sixteen (a ∷ b ∷ c ∷ d ∷ e ∷ f ∷ g ∷ h ∷ i ∷ j ∷ k ∷ l ∷ m ∷ n ∷ o ∷ p ∷ [])

to_sixteen : (u : Bytes) → length u ≡ uuid_size → Sixteen u
to_sixteen (a ∷ b ∷ c ∷ d ∷ e ∷ f ∷ g ∷ h ∷ i ∷ j ∷ k ∷ l ∷ m ∷ n ∷ o ∷ p ∷ []) q =
    sixteen a b c d e f g h i j k l m n o p
to_sixteen u q = absurd (omega arith)

-- What `encode_discovery_request` writes is decoded to the same version range.
pub decode-encode_discovery_request :
    (r : DiscoveryRequestPayload) (bytes : Bytes)
    → encode_discovery_request r ≡ ok bytes
    → decode_discovery_request bytes ≡ ok r
unfolding encode_discovery_request decode_discovery_request
decode-encode_discovery_request r bytes e = ground arith

abbrev identity : Bytes → ℕ → ℕ → ℕ → ℕ → ℕ → NodeIdentity
identity u major minor patch board version = record {
  uuid = u;
  firmware_major = major;
  firmware_minor = minor;
  firmware_patch = patch;
  board_type = board;
  protocol_version = version;
}

identity_at :
    {u : Bytes}
    → Sixteen u
    → (major minor patch board version : ℕ) → major < 2 ^ 16
    → minor < 2 ^ 16
    → patch < 2 ^ 16
    → board < 2 ^ 32
    → decode_node_identity (encode_node_identity (identity u major minor patch board version))
      ≡ ok (identity u major minor patch board version)
unfolding encode_node_identity decode_node_identity append_u16 append_u32
identity_at (sixteen a b c d e f g h i j k l m n o p) major minor patch board version h1 h2 h3 h4 =
    ground (
      arith,
      read_u16-le16 major (le16 minor ++ le16 patch ++ le32 board ++ version ∷ []),
      read_u16-le16 minor (le16 patch ++ le32 board ++ version ∷ []),
      read_u16-le16 patch (le32 board ++ version ∷ []),
      read_u32-le32 board (version ∷ []),
    )

-- A node identity with a UUID of 16 bytes and its version and board numbers within their widths is
-- decoded from its encoding.
pub decode-encode_node_identity :
    (i : NodeIdentity)
    → length i.uuid ≡ uuid_size
    → i.firmware_major < 2 ^ 16
    → i.firmware_minor < 2 ^ 16
    → i.firmware_patch < 2 ^ 16
    → i.board_type < 2 ^ 32
    → decode_node_identity (encode_node_identity i) ≡ ok i
decode-encode_node_identity i l h1 h2 h3 h4 =
    identity_at (to_sixteen i.uuid l) i.firmware_major i.firmware_minor i.firmware_patch
      i.board_type i.protocol_version h1 h2 h3 h4

abbrev assignment : Bytes → ℕ → NodeAssignment
assignment u node_id = record { uuid = u; node_id = node_id }

assignment_at :
    {u : Bytes}
    → Sixteen u
    → (node_id : ℕ) (bytes : Bytes) → node_id < 2 ^ 32
    → encode_node_assignment (assignment u node_id) ≡ ok bytes
    → decode_node_assignment bytes ≡ ok (assignment u node_id)
unfolding encode_node_assignment decode_node_assignment append_u32
assignment_at (sixteen a b c d e f g h i j k l m n o p) node_id bytes lt e' =
    ground (arith, read_u32-le32 node_id [])

-- What `encode_node_assignment` writes for a UUID of 16 bytes and a node id of 32 bits is decoded to
-- the same assignment.
pub decode-encode_node_assignment :
    (a : NodeAssignment) (bytes : Bytes)
    → length a.uuid ≡ uuid_size
    → a.node_id < 2 ^ 32
    → encode_node_assignment a ≡ ok bytes
    → decode_node_assignment bytes ≡ ok a
decode-encode_node_assignment a bytes l h e =
    assignment_at (to_sixteen a.uuid l) a.node_id bytes h e

abbrev beat : Bytes → ℕ → HeartbeatPayload
beat u version = record { uuid = u; protocol_version = version }

beat_at :
    {u : Bytes}
    → Sixteen u
    → (version : ℕ) → decode_heartbeat (encode_heartbeat (beat u version)) ≡ ok (beat u version)
unfolding encode_heartbeat decode_heartbeat
beat_at (sixteen a b c d e f g h i j k l m n o p) version = refl

-- A heartbeat with a UUID of 16 bytes is decoded from its encoding.
pub decode-encode_heartbeat :
    (h : HeartbeatPayload)
    → length h.uuid ≡ uuid_size
    → decode_heartbeat (encode_heartbeat h) ≡ ok h
decode-encode_heartbeat h l = beat_at (to_sixteen h.uuid l) h.protocol_version
