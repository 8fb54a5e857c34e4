-- ===== src/Protocol/Resource/Examples.antt =====
-- The payloads about one serial port.
use remote_bsp.Prelude.{◌≡◌, refl, [], ◌∷◌, length, ok, arith}
use remote_bsp.Bytes.{Bytes}
use remote_bsp.Protocol.Resource.Types.{
  ResourceDescriptor, ResourceStatusPayload, ResourceContract, encode_resource_descriptor,
  decode_resource_descriptor,
}
use remote_bsp.Protocol.Resource.Leases.{
  ResourceLeaseRequest, ResourceLeaseTokenRequest, ResourceLeaseInfo, encode_resource_lease_request,
  decode_resource_lease_request, encode_resource_lease_info, decode_resource_lease_info,
}
use remote_bsp.Protocol.Resource.Lists.{encode_resource_list, decode_resource_list}
use remote_bsp.Protocol.Resource.RoundTrip.{
  ResourceDescriptorFits, ResourceStatusPayloadFits, ResourceContractFits, ResourceLeaseRequestFits,
  ResourceLeaseTokenRequestFits, ResourceLeaseInfoFits, decode-encode_resource_descriptor,
  decode-encode_resource_lease_request, decode-encode_resource_lease_info,
}
use remote_bsp.Protocol.Resource.ListRoundTrip.{decode-encode_resource_list}

abbrev uart_two : ResourceDescriptor
uart_two = record {
  resource_id = 131074;
  resource_type = 2;
  instance_number = 1;
  flags = 3;
  rx_capacity = 256;
  tx_capacity = 256;
}

uart_two-Fits : ResourceDescriptorFits uart_two
uart_two-Fits = record {
  resource_id = omega arith;
  instance_number = omega arith;
  flags = omega arith;
  rx_capacity = omega arith;
  tx_capacity = omega arith;
  type_lo = omega arith;
  type_hi = omega arith;
}

decode-encode_resource_descriptor_example :
    (bytes : Bytes) × (encode_resource_descriptor uart_two ≡ ok bytes)
    × (length bytes ≡ 17)
    × (decode_resource_descriptor bytes ≡ ok uart_two)
decode-encode_resource_descriptor_example = decode-encode_resource_descriptor uart_two uart_two-Fits

abbrev degraded : ResourceStatusPayload
degraded = record {
  resource_id = 131074;
  health = 1;
  error_flags = 4;
  rx_buffered = 10;
  tx_buffered = 0;
  rx_overruns = 3;
  tx_overruns = 0;
}

degraded-Fits : ResourceStatusPayloadFits degraded
degraded-Fits = record {
  resource_id = omega arith;
  error_flags = omega arith;
  rx_buffered = omega arith;
  tx_buffered = omega arith;
  rx_overruns = omega arith;
  tx_overruns = omega arith;
  health = omega arith;
}

abbrev slow_contract : ResourceContract
slow_contract = record {
  resource_id = 131074;
  version = 1;
  access_flags = 3;
  timing_resolution_ns = 1000;
  worst_case_latency_us = 500;
  maximum_operations_per_second = 100;
  queue_capacity = 16;
  maximum_rx_bits_per_second = 115200;
  maximum_tx_bits_per_second = 115200;
}

slow_contract-Fits : ResourceContractFits slow_contract
slow_contract-Fits = record {
  resource_id = omega arith;
  version = omega arith;
  access_flags = omega arith;
  timing_resolution_ns = omega arith;
  worst_case_latency_us = omega arith;
  maximum_operations_per_second = omega arith;
  queue_capacity = omega arith;
  maximum_rx_bits_per_second = omega arith;
  maximum_tx_bits_per_second = omega arith;
  supported = refl;
}

abbrev ask : ResourceLeaseRequest
ask = record { resource_id = 131074; duration_ms = 3000; mode = 2 }

ask-Fits : ResourceLeaseRequestFits ask
ask-Fits = record {
  resource_id = omega arith;
  duration_ms = omega arith;
  mode_lo = omega arith;
  mode_hi = omega arith;
}

decode-encode_resource_lease_request_example :
    (bytes : Bytes) × (encode_resource_lease_request ask ≡ ok bytes)
    × (length bytes ≡ 9)
    × (decode_resource_lease_request bytes ≡ ok ask)
decode-encode_resource_lease_request_example = decode-encode_resource_lease_request ask ask-Fits

abbrev renew : ResourceLeaseTokenRequest
renew = record { resource_id = 131074; lease_id = 77; duration_ms = 3000 }

renew-Fits : ResourceLeaseTokenRequestFits renew
renew-Fits = record { resource_id = omega arith; lease_id = omega arith; duration_ms = omega arith }

abbrev granted : ResourceLeaseInfo
granted = record {
  resource_id = 131074;
  lease_id = 77;
  owner_session_id = 5;
  granted_duration_ms = 3000;
  remaining_ms = 2500;
  mode = 2;
  active_lease_count = 1;
}

granted-Fits : ResourceLeaseInfoFits granted
granted-Fits = record {
  resource_id = omega arith;
  lease_id = omega arith;
  owner_session_id = omega arith;
  granted_duration_ms = omega arith;
  remaining_ms = omega arith;
  active_lease_count = omega arith;
  mode = omega arith;
}

decode-encode_resource_lease_info_example :
    (bytes : Bytes) × (encode_resource_lease_info granted ≡ ok bytes)
    × (length bytes ≡ 27)
    × (decode_resource_lease_info bytes ≡ ok granted)
decode-encode_resource_lease_info_example = decode-encode_resource_lease_info granted granted-Fits

decode-encode_resource_list_example :
    (bytes : Bytes) × (encode_resource_list (uart_two ∷ uart_two ∷ []) ≡ ok bytes)
    × (length bytes ≡ 36)
    × (decode_resource_list bytes ≡ ok (uart_two ∷ uart_two ∷ []))
decode-encode_resource_list_example =
    decode-encode_resource_list (uart_two ∷ uart_two ∷ []) (uart_two-Fits, (uart_two-Fits, tt))
      (omega arith)
