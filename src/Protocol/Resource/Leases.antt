-- ===== src/Protocol/Resource/Leases.antt =====
-- The lease payloads of protocol/src/resource.cpp.
use remote_bsp.Prelude.{
  ℕ, leb, ◌==◌, not, ◌&&◌, Bool, [], ◌∷◌, ◌++◌, length, drop, Result, ok, throw_if, ◌>>◌,
  if◌then◌else◌, true, false,
}
use remote_bsp.Bytes.{
  Bytes, byte_at, append_u16, append_u32, append_u64, read_u16, read_u32, read_u64,
}
use remote_bsp.Protocol.Resource.Types.{ResourcePayloadError, invalid_length, invalid_lease_mode}

abbrev pub lease_mode_none : ℕ
lease_mode_none = 0

abbrev pub lease_mode_shared_read : ℕ
lease_mode_shared_read = 1

abbrev pub lease_mode_exclusive : ℕ
lease_mode_exclusive = 2

abbrev pub lease_request_size : ℕ
lease_request_size = 9

abbrev pub lease_token_request_size : ℕ
lease_token_request_size = 16

abbrev pub lease_info_size : ℕ
lease_info_size = 27

pub record ResourceLeaseRequest : Type 0 where
  pub resource_id : ℕ
  pub duration_ms : ℕ
  pub mode : ℕ

pub record ResourceLeaseTokenRequest : Type 0 where
  pub resource_id : ℕ
  pub lease_id : ℕ
  pub duration_ms : ℕ

pub record ResourceLeaseInfo : Type 0 where
  pub resource_id : ℕ
  pub lease_id : ℕ
  pub owner_session_id : ℕ
  pub granted_duration_ms : ℕ
  pub remaining_ms : ℕ
  pub mode : ℕ
  pub active_lease_count : ℕ

unfoldable pub valid_lease_mode : ℕ → Bool → Bool
valid_lease_mode value allow_none =
    leb (if allow_none then lease_mode_none else lease_mode_shared_read) value
    && leb value lease_mode_exclusive

unfoldable pub encode_resource_lease_request :
    ResourceLeaseRequest → Result ResourcePayloadError Bytes
unfolding valid_lease_mode append_u32
encode_resource_lease_request r = do
  throw_if (not (valid_lease_mode r.mode false)) invalid_lease_mode
  ok (append_u32 (append_u32 [] r.resource_id) r.duration_ms ++ (r.mode ∷ []))

unfoldable pub decode_resource_lease_request :
    Bytes → Result ResourcePayloadError ResourceLeaseRequest
unfolding valid_lease_mode
decode_resource_lease_request payload = do
  throw_if (not (length payload == lease_request_size)) invalid_length
  throw_if (not (valid_lease_mode (byte_at payload 8) false)) invalid_lease_mode
  ok (record {
    resource_id = read_u32 payload;
    duration_ms = read_u32 (drop 4 payload);
    mode = byte_at payload 8;
  })

unfoldable pub encode_resource_lease_token_request : ResourceLeaseTokenRequest → Bytes
unfolding append_u32 append_u64
encode_resource_lease_token_request r =
    append_u32 (append_u64 (append_u32 [] r.resource_id) r.lease_id) r.duration_ms

unfoldable pub decode_resource_lease_token_request :
    Bytes → Result ResourcePayloadError ResourceLeaseTokenRequest
decode_resource_lease_token_request payload = do
  throw_if (not (length payload == lease_token_request_size)) invalid_length
  ok (record {
    resource_id = read_u32 payload;
    lease_id = read_u64 (drop 4 payload);
    duration_ms = read_u32 (drop 12 payload);
  })

unfoldable pub encode_resource_lease_info : ResourceLeaseInfo → Result ResourcePayloadError Bytes
unfolding valid_lease_mode append_u16 append_u32 append_u64
encode_resource_lease_info i = do
  throw_if (not (valid_lease_mode i.mode true)) invalid_lease_mode
  let owned = append_u32 (append_u64 (append_u32 [] i.resource_id) i.lease_id) i.owner_session_id
  let timed = append_u32 (append_u32 owned i.granted_duration_ms) i.remaining_ms
  ok (append_u16 (timed ++ (i.mode ∷ [])) i.active_lease_count)

unfoldable pub decode_resource_lease_info : Bytes → Result ResourcePayloadError ResourceLeaseInfo
unfolding valid_lease_mode
decode_resource_lease_info payload = do
  throw_if (not (length payload == lease_info_size)) invalid_length
  throw_if (not (valid_lease_mode (byte_at payload 24) true)) invalid_lease_mode
  ok (record {
    resource_id = read_u32 payload;
    lease_id = read_u64 (drop 4 payload);
    owner_session_id = read_u32 (drop 12 payload);
    granted_duration_ms = read_u32 (drop 16 payload);
    remaining_ms = read_u32 (drop 20 payload);
    mode = byte_at payload 24;
    active_lease_count = read_u16 (drop 25 payload);
  })
