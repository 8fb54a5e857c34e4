-- ===== src/MockMcu/RemoteCore/ResourceHandlers.antt =====
-- mock_mcu/src/remote_core.cpp: the constructor, and the handlers of the commands on the node and on
-- its resources. The simulated ports give their status without an error.
use remote_bsp.Prelude.{
  ℕ, ◌+◌, ◌*◌, ltb, leb, ◌==◌, not, ◌&&◌, ◌||◌, bit_or, Bool, true, false, Option, none, some,
  if◌then◌else◌, List, [], ◌∷◌, ◌++◌, length, any, is_empty, Result, ok, err, throw_if, ◌>>◌, ◌>>=◌,
}
use remote_bsp.Prelude.Map.{find}
use remote_bsp.Bytes.{Bytes, append_u16, append_u32, append_u64, bytes_eq}
use remote_bsp.Protocol.Packet.{Packet, protocol_version, maximum_payload_size}
use remote_bsp.Protocol.Resource.Types.{
  ResourceDescriptor, ResourceContract, ResourceStatusPayload, decode_resource_id,
  encode_resource_descriptor, encode_resource_status, encode_resource_contract,
  resource_contract_version, resource_type_stepgen_axis,
}
use remote_bsp.Protocol.Resource.Lists.{encode_resource_list}
use remote_bsp.MockMcu.Gpio.{MockGpioBsp}
use remote_bsp.MockMcu.Uart
use remote_bsp.MockMcu.Uart.{
  MockUartBsp, UartError, UartRuntimeStatus, port_not_configured, buffer_overflow, port_failed,
}
use remote_bsp.MockMcu.Motion.{MotionExecutor, has_fault, aborted}
use remote_bsp.MockMcu.Motion.Executor.{abort, clear_fault}
use remote_bsp.MockMcu.RemoteCore.{
  RemoteCore, NodeInfo, CoreError, unsupported_version, invalid_resource_catalog, Outcome, Exit,
  refuse, resource_failure, respond, respond_with, refuse_if, require, pass_on, has_bit,
  find_resource, find_contract, StatusCode, access_lease_required, access_lease_supported,
  capability_bootloader, all_well, invalid_payload, object_not_found, access_denied,
  resource_exhausted, unsupported_capability, resource_failed,
}
use remote_bsp.MockMcu.RemoteCore.Leases.{
  has_entry, is_moving, resource_access_allowed, session_has_exclusive_lease,
}

abbrev pub resource_type_uart : ℕ
resource_type_uart = 2

abbrev pub health_normal : ℕ
health_normal = 0

abbrev pub health_busy : ℕ
health_busy = 1

abbrev pub health_degraded : ℕ
health_degraded = 2

abbrev pub health_failed : ℕ
health_failed = 3

abbrev pub error_rx_overflow : ℕ
error_rx_overflow = 0x01

abbrev pub error_tx_overflow : ℕ
error_tx_overflow = 0x02

abbrev pub error_backend_failure : ℕ
error_backend_failure = 0x04

abbrev pub error_rx_high_water : ℕ
error_rx_high_water = 0x08

abbrev pub error_tx_high_water : ℕ
error_tx_high_water = 0x10

-- Whether an id stands in a list of resources, and of contracts.
abbrev pub names_resource : List ResourceDescriptor → ℕ → Bool
names_resource resources resource_id = any (λ r. r.resource_id == resource_id) resources

abbrev pub names_contract : List ResourceContract → ℕ → Bool
names_contract contracts resource_id = any (λ c. c.resource_id == resource_id) contracts

-- The loops of the constructor, with what they have seen.
unfoldable pub check_resources :
    List ResourceDescriptor → List ResourceDescriptor → Result CoreError (Unit {0})
check_resources seen [] = ok tt
check_resources seen (r ∷ resources) =
    throw_if ((r.resource_id == 0) || names_resource seen r.resource_id) invalid_resource_catalog
    >> check_resources (r ∷ seen) resources

unfoldable pub check_contracts :
    List ResourceDescriptor
    → List ResourceContract
    → List ResourceContract
    → Result CoreError (Unit {0})
check_contracts resources seen [] = ok tt
check_contracts resources seen (c ∷ contracts) =
    throw_if
      ((c.resource_id == 0)
        || not (c.version == resource_contract_version)
        || not (names_resource resources c.resource_id)
        || names_contract seen c.resource_id
        || (has_bit c.access_flags access_lease_required
            && not (has_bit c.access_flags access_lease_supported)))
      invalid_resource_catalog
    >> check_contracts resources (c ∷ seen) contracts

unfoldable pub new_core :
    NodeInfo
    → ℕ
    → Option MockGpioBsp
    → Option MockUartBsp
    → List ResourceDescriptor
    → List ResourceContract
    → Option MotionExecutor
    → Result CoreError RemoteCore
unfolding check_resources check_contracts
new_core node_info capabilities gpio_bsp uart_bsp resources contracts motion = do
  throw_if (not (node_info.protocol_version == protocol_version)) unsupported_version
  check_resources [] resources
  check_contracts resources [] contracts
  ok (record {
    node_info = node_info;
    capabilities = capabilities;
    gpio_bsp = gpio_bsp;
    uart_bsp = uart_bsp;
    motion = motion;
    resources = resources;
    contracts = contracts;
    leases = [];
    gpio_objects = [];
    uart_objects = [];
    next_object_id = 1;
    next_lease_id = 1;
    bootloader_requested = false;
  })

unfoldable pub handle_get_info : RemoteCore → Packet → Outcome
unfolding append_u16 append_u32
handle_get_info core request = do
  refuse_if (not (is_empty request.payload)) invalid_payload
  let info = core.node_info
  let firmware =
      append_u16 (append_u16 (append_u16 info.uuid info.firmware_major) info.firmware_minor)
        info.firmware_patch
  respond_with request (append_u32 firmware info.board_type ++ (info.protocol_version ∷ [])) core

unfoldable pub handle_get_capability : RemoteCore → Packet → Outcome
unfolding append_u64
handle_get_capability core request = do
  refuse_if (not (is_empty request.payload)) invalid_payload
  respond_with request (append_u64 [] core.capabilities) core

unfoldable pub handle_ping : RemoteCore → Packet → Outcome
handle_ping core request = do
  refuse_if (leb maximum_payload_size (length request.payload)) invalid_payload
  respond_with request request.payload core

-- The bytes of "RBSPBOOT".
abbrev pub confirmation : Bytes
confirmation = 0x52 ∷ 0x42 ∷ 0x53 ∷ 0x50 ∷ 0x42 ∷ 0x4F ∷ 0x4F ∷ 0x54 ∷ []

unfoldable pub handle_bootloader_enter : RemoteCore → Packet → Outcome
handle_bootloader_enter core request = do
  refuse_if (not (request.header.object_id == 0) || not (bytes_eq request.payload confirmation))
      invalid_payload
  refuse_if (not (has_bit core.capabilities capability_bootloader)) unsupported_capability
  respond request all_well (record core { bootloader_requested = true })

unfoldable pub handle_resource_enum : RemoteCore → Packet → Outcome
handle_resource_enum core request = do
  refuse_if (not (is_empty request.payload) || not (request.header.object_id == 0)) invalid_payload
  encoded ← pass_on (encode_resource_list core.resources) resource_failure
  refuse_if (ltb maximum_payload_size (length encoded + 1)) resource_exhausted
  respond_with request encoded core

-- `request.header.object_id != 0 || request.payload.size() != 4`, and the id in the payload
unfoldable pub request_resource_id : Packet → Result Exit ℕ
request_resource_id request = do
  refuse_if (not (request.header.object_id == 0) || not (length request.payload == 4))
      invalid_payload
  pass_on (decode_resource_id request.payload) resource_failure

unfoldable pub handle_resource_describe : RemoteCore → Packet → Outcome
unfolding request_resource_id
handle_resource_describe core request = do
  resource_id ← request_resource_id request
  found ← require (find_resource core resource_id) object_not_found
  encoded ← pass_on (encode_resource_descriptor found) resource_failure
  respond_with request encoded core

-- `if (test) status.error_flags |= flag;`
abbrev pub flag_if : Bool → ℕ → ℕ → ℕ
flag_if test flag flags = if test then bit_or flags flag else flags

abbrev pub high_water : ℕ → ℕ → Bool
high_water capacity buffered = not (capacity == 0) && leb (capacity * 3) (buffered * 4)

unfoldable pub uart_error_flags : ResourceDescriptor → UartRuntimeStatus → ℕ
uart_error_flags found uart_status = flag_if uart_status.failed error_backend_failure (
    flag_if (high_water found.tx_capacity uart_status.tx_buffered) error_tx_high_water (
      flag_if (high_water found.rx_capacity uart_status.rx_buffered) error_rx_high_water (
        flag_if (not (uart_status.tx_overruns == 0)) error_tx_overflow
          (flag_if (not (uart_status.rx_overruns == 0)) error_rx_overflow 0))))

unfoldable pub uart_health : ℕ → Bool → ℕ
uart_health error_flags failed =
    if failed
    then health_failed
    else (if has_bit error_flags (bit_or error_rx_overflow error_tx_overflow)
        then health_degraded
        else (if not (error_flags == 0) then health_busy else health_normal))

abbrev pub normal_status : ℕ → ResourceStatusPayload
normal_status resource_id = record {
  resource_id = resource_id;
  health = health_normal;
  error_flags = 0;
  rx_buffered = 0;
  tx_buffered = 0;
  rx_overruns = 0;
  tx_overruns = 0;
}

unfoldable pub uart_resource_status : ResourceDescriptor → MockUartBsp → ResourceStatusPayload
unfolding uart_error_flags uart_health
uart_resource_status found bsp =
    let uart_status : UartRuntimeStatus = Uart.status bsp found.instance_number in
    let error_flags = uart_error_flags found uart_status in
    record {
      resource_id = found.resource_id;
      health = uart_health error_flags uart_status.failed;
      error_flags = error_flags;
      rx_buffered = uart_status.rx_buffered;
      tx_buffered = uart_status.tx_buffered;
      rx_overruns = uart_status.rx_overruns;
      tx_overruns = uart_status.tx_overruns;
    }

unfoldable pub motion_resource_status : ℕ → MotionExecutor → ResourceStatusPayload
motion_resource_status resource_id motion =
    if has_fault motion.fault
    then record (normal_status resource_id) {
      health = health_failed;
      error_flags = error_backend_failure;
    }
    else (if is_moving motion.state
        then record (normal_status resource_id) { health = health_busy }
        else normal_status resource_id)

-- Whether a resource is a port of the simulated ones.
abbrev pub is_uart : ResourceDescriptor → Bool
is_uart found = (found.resource_type == resource_type_uart) && leb found.instance_number 0xFF

abbrev pub is_axis : ResourceDescriptor → Bool
is_axis found = found.resource_type == resource_type_stepgen_axis

unfoldable pub resource_status :
    ResourceDescriptor → Option MockUartBsp → Option MotionExecutor → ResourceStatusPayload
unfolding uart_resource_status motion_resource_status
resource_status found none none = normal_status found.resource_id
resource_status found (some uart) none =
    if is_uart found then uart_resource_status found uart else normal_status found.resource_id
resource_status found none (some motion) =
    if is_axis found
    then motion_resource_status found.resource_id motion
    else normal_status found.resource_id
resource_status found (some uart) (some motion) =
    if is_uart found
    then uart_resource_status found uart
    else (if is_axis found
        then motion_resource_status found.resource_id motion
        else normal_status found.resource_id)

unfoldable pub handle_resource_status : RemoteCore → Packet → Outcome
unfolding request_resource_id resource_status
handle_resource_status core request = do
  resource_id ← request_resource_id request
  found ← require (find_resource core resource_id) object_not_found
  encoded ←
      pass_on (encode_resource_status (resource_status found core.uart_bsp core.motion))
        resource_failure
  respond_with request encoded core

-- `make_uart_error_response`
unfoldable pub uart_error_status : UartError → StatusCode
uart_error_status port_not_configured = object_not_found
uart_error_status buffer_overflow = resource_exhausted
uart_error_status port_failed = resource_failed

-- `abort` and `clear_fault`, and whether one of them threw.
unfoldable pub reset_motion : MotionExecutor → Bool × MotionExecutor
reset_motion motion =
    let stopped =
      if is_moving motion.state then abort motion motion.now_ns aborted else (ok [], motion) in
    elim stopped.0 [
      | err e ↦ (true, stopped.1)
      | ok edges ↦ elim (clear_fault stopped.1).0 [
        | err e ↦ (true, (clear_fault stopped.1).1)
        | ok u ↦ (false, (clear_fault stopped.1).1)
      ]
    ]

unfoldable pub reset_uart : RemoteCore → Packet → ResourceDescriptor → Option MockUartBsp → Outcome
unfolding uart_error_status
reset_uart core request found none = err (refuse unsupported_capability)
reset_uart core request found (some uart) = do
  refuse_if (not (is_uart found)) unsupported_capability
  let done = Uart.reset uart found.instance_number
  let after = record core { uart_bsp = some done.1 }
  elim done.0 [
    | err e ↦ respond request (uart_error_status e) after
    | ok u ↦ respond request all_well after
  ]

unfoldable pub reset_resource :
    RemoteCore → Packet → ResourceDescriptor → Option MotionExecutor → Outcome
unfolding reset_motion reset_uart
reset_resource core request found none = reset_uart core request found core.uart_bsp
reset_resource core request found (some motion) =
    let (threw, after) = reset_motion motion in
    if is_axis found
    then respond request (if threw then resource_failed else all_well)
        (record core { motion = some after })
    else reset_uart core request found core.uart_bsp

unfoldable pub handle_resource_reset : RemoteCore → Packet → Outcome
unfolding request_resource_id reset_resource
handle_resource_reset core request = do
  resource_id ← request_resource_id request
  found ← require (find_resource core resource_id) object_not_found
  refuse_if
      (not (resource_access_allowed core resource_id request.header.session_id)
        || (has_entry (find resource_id core.leases)
            && not (session_has_exclusive_lease core resource_id request.header.session_id)))
      access_denied
  reset_resource core request found core.motion

unfoldable pub handle_resource_contract : RemoteCore → Packet → Outcome
unfolding request_resource_id
handle_resource_contract core request = do
  resource_id ← request_resource_id request
  resource ← require (find_resource core resource_id) object_not_found
  contract ← require (find_contract core resource_id) unsupported_capability
  encoded ← pass_on (encode_resource_contract contract) resource_failure
  respond_with request encoded core
