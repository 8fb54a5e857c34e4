-- ===== src/Protocol/Resource/Types.antt =====
-- Identifiers, descriptors, states and capability contracts of protocol/src/resource.cpp.
use remote_bsp.Prelude.{
  ℕ, ltb, leb, ◌==◌, not, ◌&&◌, Bool, [], ◌∷◌, ◌++◌, length, drop, Result, ok, throw_if, ◌>>◌,
}
use remote_bsp.Bytes.{Bytes, byte_at, append_u16, append_u32, read_u16, read_u32}

abbrev pub resource_type_gpio : ℕ
resource_type_gpio = 1

abbrev pub resource_type_stepgen_axis : ℕ
resource_type_stepgen_axis = 9

abbrev pub resource_health_disabled : ℕ
resource_health_disabled = 4

abbrev pub resource_contract_version : ℕ
resource_contract_version = 1

abbrev pub descriptor_size : ℕ
descriptor_size = 17

abbrev pub contract_size : ℕ
contract_size = 32

pub record ResourceDescriptor : Type 0 where
  pub resource_id : ℕ
  pub resource_type : ℕ
  pub instance_number : ℕ
  pub flags : ℕ
  pub rx_capacity : ℕ
  pub tx_capacity : ℕ

pub record ResourceStatusPayload : Type 0 where
  pub resource_id : ℕ
  pub health : ℕ
  pub error_flags : ℕ
  pub rx_buffered : ℕ
  pub tx_buffered : ℕ
  pub rx_overruns : ℕ
  pub tx_overruns : ℕ

pub record ResourceContract : Type 0 where
  pub resource_id : ℕ
  pub version : ℕ
  pub access_flags : ℕ
  pub timing_resolution_ns : ℕ
  pub worst_case_latency_us : ℕ
  pub maximum_operations_per_second : ℕ
  pub queue_capacity : ℕ
  pub maximum_rx_bits_per_second : ℕ
  pub maximum_tx_bits_per_second : ℕ

pub data ResourcePayloadError : Type 0 where
  invalid_length invalid_type invalid_health invalid_contract_version : ResourcePayloadError
  invalid_lease_mode too_many_resources : ResourcePayloadError

unfoldable pub valid_type : ℕ → Bool
valid_type value = leb resource_type_gpio value && leb value resource_type_stepgen_axis

unfoldable pub encode_resource_id : ℕ → Bytes
unfolding append_u32
encode_resource_id resource_id = append_u32 [] resource_id

unfoldable pub decode_resource_id : Bytes → Result ResourcePayloadError ℕ
decode_resource_id payload = do
  throw_if (not (length payload == 4)) invalid_length
  ok (read_u32 payload)

unfoldable pub encode_resource_descriptor : ResourceDescriptor → Result ResourcePayloadError Bytes
unfolding valid_type append_u16 append_u32
encode_resource_descriptor d = do
  throw_if (not (valid_type d.resource_type)) invalid_type
  let head = append_u32 [] d.resource_id ++ (d.resource_type ∷ [])
  let numbered = append_u16 (append_u16 head d.instance_number) d.flags
  ok (append_u32 (append_u32 numbered d.rx_capacity) d.tx_capacity)

unfoldable pub decode_resource_descriptor : Bytes → Result ResourcePayloadError ResourceDescriptor
unfolding valid_type
decode_resource_descriptor payload = do
  throw_if (not (length payload == descriptor_size)) invalid_length
  throw_if (not (valid_type (byte_at payload 4))) invalid_type
  ok (record {
    resource_id = read_u32 payload;
    resource_type = byte_at payload 4;
    instance_number = read_u16 (drop 5 payload);
    flags = read_u16 (drop 7 payload);
    rx_capacity = read_u32 (drop 9 payload);
    tx_capacity = read_u32 (drop 13 payload);
  })

unfoldable pub encode_resource_status : ResourceStatusPayload → Result ResourcePayloadError Bytes
unfolding append_u32
encode_resource_status s = do
  throw_if (ltb resource_health_disabled s.health) invalid_health
  let head = append_u32 [] s.resource_id ++ (s.health ∷ [])
  let buffered = append_u32 (append_u32 (append_u32 head s.error_flags) s.rx_buffered) s.tx_buffered
  ok (append_u32 (append_u32 buffered s.rx_overruns) s.tx_overruns)

unfoldable pub decode_resource_status : Bytes → Result ResourcePayloadError ResourceStatusPayload
decode_resource_status payload = do
  throw_if (not (length payload == 25)) invalid_length
  throw_if (ltb resource_health_disabled (byte_at payload 4)) invalid_health
  ok (record {
    resource_id = read_u32 payload;
    health = byte_at payload 4;
    error_flags = read_u32 (drop 5 payload);
    rx_buffered = read_u32 (drop 9 payload);
    tx_buffered = read_u32 (drop 13 payload);
    rx_overruns = read_u32 (drop 17 payload);
    tx_overruns = read_u32 (drop 21 payload);
  })

unfoldable pub encode_resource_contract : ResourceContract → Result ResourcePayloadError Bytes
unfolding append_u16 append_u32
encode_resource_contract c = do
  throw_if (not (c.version == resource_contract_version)) invalid_contract_version
  let head = append_u16 (append_u16 (append_u32 [] c.resource_id) c.version) c.access_flags
  let timing = append_u32 (append_u32 head c.timing_resolution_ns) c.worst_case_latency_us
  let queue = append_u32 (append_u32 timing c.maximum_operations_per_second) c.queue_capacity
  ok (append_u32 (append_u32 queue c.maximum_rx_bits_per_second) c.maximum_tx_bits_per_second)

unfoldable pub decode_resource_contract : Bytes → Result ResourcePayloadError ResourceContract
decode_resource_contract payload = do
  throw_if (not (length payload == contract_size)) invalid_length
  throw_if (not (read_u16 (drop 4 payload) == resource_contract_version)) invalid_contract_version
  ok (record {
    resource_id = read_u32 payload;
    version = read_u16 (drop 4 payload);
    access_flags = read_u16 (drop 6 payload);
    timing_resolution_ns = read_u32 (drop 8 payload);
    worst_case_latency_us = read_u32 (drop 12 payload);
    maximum_operations_per_second = read_u32 (drop 16 payload);
    queue_capacity = read_u32 (drop 20 payload);
    maximum_rx_bits_per_second = read_u32 (drop 24 payload);
    maximum_tx_bits_per_second = read_u32 (drop 28 payload);
  })
