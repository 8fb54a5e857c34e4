-- ===== src/Protocol/Resource/RoundTrip.antt =====
-- The payloads of fixed size of protocol/src/resource.cpp, encoded and decoded again.
use remote_bsp.Prelude.{◌^◌, ◌<◌, ◌≤◌, ◌≡◌, refl, [], ◌∷◌, ◌++◌, length, ok, arith}
use remote_bsp.Bytes.{Bytes}
use remote_bsp.Bytes.Laws.{le16, le32, le64, read_u16-le16, read_u32-le32, read_u64-le64}
use remote_bsp.Protocol.Resource.Types.{
  ResourceDescriptor, ResourceStatusPayload, ResourceContract, encode_resource_descriptor,
  decode_resource_descriptor, encode_resource_status, decode_resource_status,
  encode_resource_contract, decode_resource_contract, descriptor_size, contract_size,
  resource_health_disabled, resource_contract_version,
}
use remote_bsp.Protocol.Resource.Leases.{
  ResourceLeaseRequest, ResourceLeaseTokenRequest, ResourceLeaseInfo, encode_resource_lease_request,
  decode_resource_lease_request, encode_resource_lease_token_request,
  decode_resource_lease_token_request, encode_resource_lease_info, decode_resource_lease_info,
  lease_request_size, lease_token_request_size, lease_info_size,
}

pub record ResourceDescriptorFits (d : ResourceDescriptor) : Type 0 where
  pub resource_id : d.resource_id < 2 ^ 32
  pub instance_number : d.instance_number < 2 ^ 16
  pub flags : d.flags < 2 ^ 16
  pub rx_capacity : d.rx_capacity < 2 ^ 32
  pub tx_capacity : d.tx_capacity < 2 ^ 32
  pub type_lo : 1 ≤ d.resource_type
  pub type_hi : d.resource_type ≤ 9

abbrev pub descriptor_bytes : ResourceDescriptor → Bytes
descriptor_bytes d =
    le32 d.resource_id
    ++ (d.resource_type
        ∷ (le16 d.instance_number
            ++ (le16 d.flags ++ (le32 d.rx_capacity ++ (le32 d.tx_capacity)))))

pub decode_resource_descriptor_at :
    (d : ResourceDescriptor)
    → ResourceDescriptorFits d
    → decode_resource_descriptor (descriptor_bytes d) ≡ ok d
unfolding decode_resource_descriptor
decode_resource_descriptor_at d f = ground (
  arith,
  read_u32-le32 d.resource_id (
      d.resource_type
      ∷ (le16 d.instance_number ++ (le16 d.flags ++ (le32 d.rx_capacity ++ (le32 d.tx_capacity))))),
  read_u16-le16 d.instance_number (le16 d.flags ++ (le32 d.rx_capacity ++ (le32 d.tx_capacity))),
  read_u16-le16 d.flags (le32 d.rx_capacity ++ (le32 d.tx_capacity)),
  read_u32-le32 d.rx_capacity (le32 d.tx_capacity),
  read_u32-le32 d.tx_capacity ([]),
)

pub encode_resource_descriptor_lem :
    (d : ResourceDescriptor)
    → ResourceDescriptorFits d
    → encode_resource_descriptor d ≡ ok (descriptor_bytes d)
unfolding encode_resource_descriptor
encode_resource_descriptor_lem d f = ground arith

-- A resource descriptor with a type from 1 to 9 and its numbers within their widths is encoded in 17
-- bytes and decoded to itself.
pub decode-encode_resource_descriptor :
    (d : ResourceDescriptor)
    → ResourceDescriptorFits d
    → (bytes : Bytes) × (encode_resource_descriptor d ≡ ok bytes)
      × (length bytes ≡ descriptor_size)
      × (decode_resource_descriptor bytes ≡ ok d)
decode-encode_resource_descriptor d f = (
  descriptor_bytes d,
  encode_resource_descriptor_lem d f,
  refl,
  decode_resource_descriptor_at d f,
)

pub record ResourceStatusPayloadFits (s : ResourceStatusPayload) : Type 0 where
  pub resource_id : s.resource_id < 2 ^ 32
  pub error_flags : s.error_flags < 2 ^ 32
  pub rx_buffered : s.rx_buffered < 2 ^ 32
  pub tx_buffered : s.tx_buffered < 2 ^ 32
  pub rx_overruns : s.rx_overruns < 2 ^ 32
  pub tx_overruns : s.tx_overruns < 2 ^ 32
  pub health : s.health ≤ resource_health_disabled

abbrev status_bytes : ResourceStatusPayload → Bytes
status_bytes s =
    le32 s.resource_id
    ++ (s.health
        ∷ (le32 s.error_flags
            ++ (le32 s.rx_buffered
                ++ (le32 s.tx_buffered ++ (le32 s.rx_overruns ++ (le32 s.tx_overruns))))))

decode_resource_status_at :
    (s : ResourceStatusPayload)
    → ResourceStatusPayloadFits s
    → decode_resource_status (status_bytes s) ≡ ok s
unfolding decode_resource_status
decode_resource_status_at s f = ground (
  arith,
  read_u32-le32 s.resource_id (
      s.health
      ∷ (le32 s.error_flags
          ++ (le32 s.rx_buffered
              ++ (le32 s.tx_buffered ++ (le32 s.rx_overruns ++ (le32 s.tx_overruns)))))),
  read_u32-le32 s.error_flags
      (le32 s.rx_buffered ++ (le32 s.tx_buffered ++ (le32 s.rx_overruns ++ (le32 s.tx_overruns)))),
  read_u32-le32 s.rx_buffered (le32 s.tx_buffered ++ (le32 s.rx_overruns ++ (le32 s.tx_overruns))),
  read_u32-le32 s.tx_buffered (le32 s.rx_overruns ++ (le32 s.tx_overruns)),
  read_u32-le32 s.rx_overruns (le32 s.tx_overruns),
  read_u32-le32 s.tx_overruns ([]),
)

encode_resource_status_lem :
    (s : ResourceStatusPayload)
    → ResourceStatusPayloadFits s
    → encode_resource_status s ≡ ok (status_bytes s)
unfolding encode_resource_status
encode_resource_status_lem s f = ground arith

-- A resource status with a health up to 4 and its numbers within their widths is encoded in 25 bytes
-- and decoded to itself.
pub decode-encode_resource_status :
    (s : ResourceStatusPayload)
    → ResourceStatusPayloadFits s
    → (bytes : Bytes) × (encode_resource_status s ≡ ok bytes)
      × (length bytes ≡ 25)
      × (decode_resource_status bytes ≡ ok s)
decode-encode_resource_status s f =
    (status_bytes s, encode_resource_status_lem s f, refl, decode_resource_status_at s f)

pub record ResourceContractFits (c : ResourceContract) : Type 0 where
  pub resource_id : c.resource_id < 2 ^ 32
  pub version : c.version < 2 ^ 16
  pub access_flags : c.access_flags < 2 ^ 16
  pub timing_resolution_ns : c.timing_resolution_ns < 2 ^ 32
  pub worst_case_latency_us : c.worst_case_latency_us < 2 ^ 32
  pub maximum_operations_per_second : c.maximum_operations_per_second < 2 ^ 32
  pub queue_capacity : c.queue_capacity < 2 ^ 32
  pub maximum_rx_bits_per_second : c.maximum_rx_bits_per_second < 2 ^ 32
  pub maximum_tx_bits_per_second : c.maximum_tx_bits_per_second < 2 ^ 32
  pub supported : c.version ≡ resource_contract_version

abbrev contract_bytes : ResourceContract → Bytes
contract_bytes c =
    le32 c.resource_id
    ++ (le16 c.version
        ++ (le16 c.access_flags
            ++ (le32 c.timing_resolution_ns
                ++ (le32 c.worst_case_latency_us
                    ++ (le32 c.maximum_operations_per_second
                        ++ (le32 c.queue_capacity
                            ++ (le32 c.maximum_rx_bits_per_second
                                ++ (le32 c.maximum_tx_bits_per_second))))))))

decode_resource_contract_at :
    (c : ResourceContract)
    → ResourceContractFits c
    → decode_resource_contract (contract_bytes c) ≡ ok c
unfolding decode_resource_contract
decode_resource_contract_at c f = ground (
  arith,
  read_u32-le32 c.resource_id (
      le16 c.version
      ++ (le16 c.access_flags
          ++ (le32 c.timing_resolution_ns
              ++ (le32 c.worst_case_latency_us
                  ++ (le32 c.maximum_operations_per_second
                      ++ (le32 c.queue_capacity
                          ++ (le32 c.maximum_rx_bits_per_second
                              ++ (le32 c.maximum_tx_bits_per_second)))))))),
  read_u16-le16 c.version (
      le16 c.access_flags
      ++ (le32 c.timing_resolution_ns
          ++ (le32 c.worst_case_latency_us
              ++ (le32 c.maximum_operations_per_second
                  ++ (le32 c.queue_capacity
                      ++ (le32 c.maximum_rx_bits_per_second
                          ++ (le32 c.maximum_tx_bits_per_second))))))),
  read_u16-le16 c.access_flags (
      le32 c.timing_resolution_ns
      ++ (le32 c.worst_case_latency_us
          ++ (le32 c.maximum_operations_per_second
              ++ (le32 c.queue_capacity
                  ++ (le32 c.maximum_rx_bits_per_second ++ (le32 c.maximum_tx_bits_per_second)))))),
  read_u32-le32 c.timing_resolution_ns (
      le32 c.worst_case_latency_us
      ++ (le32 c.maximum_operations_per_second
          ++ (le32 c.queue_capacity
              ++ (le32 c.maximum_rx_bits_per_second ++ (le32 c.maximum_tx_bits_per_second))))),
  read_u32-le32 c.worst_case_latency_us (
      le32 c.maximum_operations_per_second
      ++ (le32 c.queue_capacity
          ++ (le32 c.maximum_rx_bits_per_second ++ (le32 c.maximum_tx_bits_per_second)))),
  read_u32-le32 c.maximum_operations_per_second (
      le32 c.queue_capacity
      ++ (le32 c.maximum_rx_bits_per_second ++ (le32 c.maximum_tx_bits_per_second))),
  read_u32-le32 c.queue_capacity
      (le32 c.maximum_rx_bits_per_second ++ (le32 c.maximum_tx_bits_per_second)),
  read_u32-le32 c.maximum_rx_bits_per_second (le32 c.maximum_tx_bits_per_second),
  read_u32-le32 c.maximum_tx_bits_per_second ([]),
)

encode_resource_contract_lem :
    (c : ResourceContract)
    → ResourceContractFits c
    → encode_resource_contract c ≡ ok (contract_bytes c)
unfolding encode_resource_contract
encode_resource_contract_lem c f = ground arith

-- A capability contract of the supported version with its numbers within their widths is encoded in
-- 32 bytes and decoded to itself.
pub decode-encode_resource_contract :
    (c : ResourceContract)
    → ResourceContractFits c
    → (bytes : Bytes) × (encode_resource_contract c ≡ ok bytes)
      × (length bytes ≡ contract_size)
      × (decode_resource_contract bytes ≡ ok c)
decode-encode_resource_contract c f =
    (contract_bytes c, encode_resource_contract_lem c f, refl, decode_resource_contract_at c f)

pub record ResourceLeaseRequestFits (r : ResourceLeaseRequest) : Type 0 where
  pub resource_id : r.resource_id < 2 ^ 32
  pub duration_ms : r.duration_ms < 2 ^ 32
  pub mode_lo : 1 ≤ r.mode
  pub mode_hi : r.mode ≤ 2

abbrev lease_request_bytes : ResourceLeaseRequest → Bytes
lease_request_bytes r = le32 r.resource_id ++ (le32 r.duration_ms ++ (r.mode ∷ []))

decode_resource_lease_request_at :
    (r : ResourceLeaseRequest)
    → ResourceLeaseRequestFits r
    → decode_resource_lease_request (lease_request_bytes r) ≡ ok r
unfolding decode_resource_lease_request
decode_resource_lease_request_at r f = ground (
  arith,
  read_u32-le32 r.resource_id (le32 r.duration_ms ++ (r.mode ∷ [])),
  read_u32-le32 r.duration_ms (r.mode ∷ []),
)

encode_resource_lease_request_lem :
    (r : ResourceLeaseRequest)
    → ResourceLeaseRequestFits r
    → encode_resource_lease_request r ≡ ok (lease_request_bytes r)
unfolding encode_resource_lease_request
encode_resource_lease_request_lem r f = ground arith

-- A lease request for a mode from 1 to 2 with its numbers within their widths is encoded in 9 bytes
-- and decoded to itself.
pub decode-encode_resource_lease_request :
    (r : ResourceLeaseRequest)
    → ResourceLeaseRequestFits r
    → (bytes : Bytes) × (encode_resource_lease_request r ≡ ok bytes)
      × (length bytes ≡ lease_request_size)
      × (decode_resource_lease_request bytes ≡ ok r)
decode-encode_resource_lease_request r f = (
  lease_request_bytes r,
  encode_resource_lease_request_lem r f,
  refl,
  decode_resource_lease_request_at r f,
)

pub record ResourceLeaseTokenRequestFits (r : ResourceLeaseTokenRequest) : Type 0 where
  pub resource_id : r.resource_id < 2 ^ 32
  pub lease_id : r.lease_id < 2 ^ 64
  pub duration_ms : r.duration_ms < 2 ^ 32

abbrev lease_token_request_bytes : ResourceLeaseTokenRequest → Bytes
lease_token_request_bytes r = le32 r.resource_id ++ (le64 r.lease_id ++ (le32 r.duration_ms))

decode_resource_lease_token_request_at :
    (r : ResourceLeaseTokenRequest)
    → ResourceLeaseTokenRequestFits r
    → decode_resource_lease_token_request (lease_token_request_bytes r) ≡ ok r
unfolding decode_resource_lease_token_request
decode_resource_lease_token_request_at r f = ground (
  arith,
  read_u32-le32 r.resource_id (le64 r.lease_id ++ (le32 r.duration_ms)),
  read_u64-le64 r.lease_id (le32 r.duration_ms),
  read_u32-le32 r.duration_ms ([]),
)

encode_resource_lease_token_request_lem :
    (r : ResourceLeaseTokenRequest)
    → encode_resource_lease_token_request r ≡ lease_token_request_bytes r
unfolding encode_resource_lease_token_request
encode_resource_lease_token_request_lem r = refl

-- A lease token request with its numbers within their widths is encoded in 16 bytes and decoded to
-- itself.
pub decode-encode_resource_lease_token_request :
    (r : ResourceLeaseTokenRequest)
    → ResourceLeaseTokenRequestFits r
    → (bytes : Bytes) × (encode_resource_lease_token_request r ≡ bytes)
      × (length bytes ≡ lease_token_request_size)
      × (decode_resource_lease_token_request bytes ≡ ok r)
decode-encode_resource_lease_token_request r f = (
  lease_token_request_bytes r,
  encode_resource_lease_token_request_lem r,
  refl,
  decode_resource_lease_token_request_at r f,
)

pub record ResourceLeaseInfoFits (i : ResourceLeaseInfo) : Type 0 where
  pub resource_id : i.resource_id < 2 ^ 32
  pub lease_id : i.lease_id < 2 ^ 64
  pub owner_session_id : i.owner_session_id < 2 ^ 32
  pub granted_duration_ms : i.granted_duration_ms < 2 ^ 32
  pub remaining_ms : i.remaining_ms < 2 ^ 32
  pub active_lease_count : i.active_lease_count < 2 ^ 16
  pub mode : i.mode ≤ 2

abbrev lease_info_bytes : ResourceLeaseInfo → Bytes
lease_info_bytes i =
    le32 i.resource_id
    ++ (le64 i.lease_id
        ++ (le32 i.owner_session_id
            ++ (le32 i.granted_duration_ms
                ++ (le32 i.remaining_ms ++ (i.mode ∷ (le16 i.active_lease_count))))))

decode_resource_lease_info_at :
    (i : ResourceLeaseInfo)
    → ResourceLeaseInfoFits i
    → decode_resource_lease_info (lease_info_bytes i) ≡ ok i
unfolding decode_resource_lease_info
decode_resource_lease_info_at i f = ground (
  arith,
  read_u32-le32 i.resource_id (
      le64 i.lease_id
      ++ (le32 i.owner_session_id
          ++ (le32 i.granted_duration_ms
              ++ (le32 i.remaining_ms ++ (i.mode ∷ (le16 i.active_lease_count)))))),
  read_u64-le64 i.lease_id (
      le32 i.owner_session_id
      ++ (le32 i.granted_duration_ms
          ++ (le32 i.remaining_ms ++ (i.mode ∷ (le16 i.active_lease_count))))),
  read_u32-le32 i.owner_session_id (
      le32 i.granted_duration_ms
      ++ (le32 i.remaining_ms ++ (i.mode ∷ (le16 i.active_lease_count)))),
  read_u32-le32 i.granted_duration_ms
      (le32 i.remaining_ms ++ (i.mode ∷ (le16 i.active_lease_count))),
  read_u32-le32 i.remaining_ms (i.mode ∷ (le16 i.active_lease_count)),
  read_u16-le16 i.active_lease_count ([]),
)

encode_resource_lease_info_lem :
    (i : ResourceLeaseInfo)
    → ResourceLeaseInfoFits i
    → encode_resource_lease_info i ≡ ok (lease_info_bytes i)
unfolding encode_resource_lease_info
encode_resource_lease_info_lem i f = ground arith

-- A lease info with a mode up to 2 and its numbers within their widths is encoded in
-- `lease_info_size` bytes and decoded to itself.
pub decode-encode_resource_lease_info :
    (i : ResourceLeaseInfo)
    → ResourceLeaseInfoFits i
    → (bytes : Bytes) × (encode_resource_lease_info i ≡ ok bytes)
      × (length bytes ≡ lease_info_size)
      × (decode_resource_lease_info bytes ≡ ok i)
decode-encode_resource_lease_info i f = (
  lease_info_bytes i,
  encode_resource_lease_info_lem i f,
  refl,
  decode_resource_lease_info_at i f,
)
