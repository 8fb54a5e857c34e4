-- ===== src/MockMcu/RemoteCore.antt =====
-- mock_mcu/include/remotebsp/mock_mcu/remote_core.hpp and mock_mcu/src/remote_core.cpp: the state of
-- the remote core and how its handlers answer. `GpioBsp` and `UartBsp` are the simulated ones. A time
-- is a number of nanoseconds, the tick of the clock. An early return of a handler is a `refuse`, an
-- exception that it lets through a `throw`; both leave the core as it was.
pub mod Leases
pub mod ResourceHandlers
pub mod LeaseHandlers
pub mod GpioHandlers
pub mod UartHandlers
pub mod MotionHandlers
pub mod Handle
pub mod Sound
pub mod Exclusive
pub mod LeaseChanges
pub mod Requests
pub mod Life
pub mod Responses
mod Examples
use remote_bsp.Prelude.{
  ℕ, zero, suc, ◌+◌, ◌%◌, ◌^◌, ltb, leb, ◌==◌, not, ◌&&◌, ◌||◌, bit_and, Bool, true, false, Option,
  none, some, if◌then◌else◌, List, [], ◌∷◌, ◌++◌, find_if, Result, ok, err, throw_if, ◌>>◌, ◌>>=◌,
}
use remote_bsp.Prelude.Map.{Map}
use remote_bsp.Bytes.{Bytes}
use remote_bsp.Protocol.MessageType
use remote_bsp.Protocol.Packet.{
  Packet, PacketHeader, new_packet, protocol_version, error_response_flag,
}
use remote_bsp.Protocol.Resource.Types.{
  ResourceDescriptor, ResourceContract, ResourcePayloadError, resource_contract_version,
}
use remote_bsp.Protocol.Motion.Segment.{MotionPayloadError}
use remote_bsp.MockMcu.Gpio.{MockGpioBsp, MockGpioError, GpioDirection}
use remote_bsp.MockMcu.Uart.{MockUartBsp, UartError}
use remote_bsp.MockMcu.Motion.{MotionExecutor}

abbrev pub capability_gpio : ℕ
capability_gpio = 2 ^ 0

abbrev pub capability_uart : ℕ
capability_uart = 2 ^ 1

abbrev pub capability_bootloader : ℕ
capability_bootloader = 2 ^ 8

abbrev pub capability_motion : ℕ
capability_motion = 2 ^ 9

abbrev pub access_shared_read : ℕ
access_shared_read = 0x0004

abbrev pub access_lease_supported : ℕ
access_lease_supported = 0x0010

abbrev pub access_lease_required : ℕ
access_lease_required = 0x0020

pub data StatusCode : Type 0 where
  all_well unknown_command invalid_payload object_not_found access_denied : StatusCode
  resource_exhausted unsupported_capability resource_failed resource_busy : StatusCode

abbrev pub code : StatusCode → ℕ
code all_well = 0
code unknown_command = 1
code invalid_payload = 2
code object_not_found = 3
code access_denied = 4
code resource_exhausted = 5
code unsupported_capability = 6
code resource_failed = 7
code resource_busy = 8

pub record NodeInfo : Type 0 where
  pub uuid : Bytes
  pub firmware_major : ℕ
  pub firmware_minor : ℕ
  pub firmware_patch : ℕ
  pub board_type : ℕ
  pub protocol_version : ℕ

pub data CoreError : Type 0 where
  not_request unsupported_version invalid_resource_catalog : CoreError

pub record GpioObject : Type 0 where
  pub pin : ℕ
  pub direction : GpioDirection
  pub resource_id : ℕ
  pub owner_session_id : ℕ

pub record UartObject : Type 0 where
  pub port : ℕ
  pub resource_id : ℕ
  pub owner_session_id : ℕ
  pub streaming : Bool
  pub event_sequence : ℕ

pub record Lease : Type 0 where
  pub lease_id : ℕ
  pub owner_session_id : ℕ
  pub granted_duration_ms : ℕ
  pub mode : ℕ
  pub expires_at : ℕ

pub record RemoteCore : Type 0 where
  pub node_info : NodeInfo
  pub capabilities : ℕ
  pub gpio_bsp : Option MockGpioBsp
  pub uart_bsp : Option MockUartBsp
  pub motion : Option MotionExecutor
  pub resources : List ResourceDescriptor
  pub contracts : List ResourceContract
  pub leases : Map (List Lease)
  pub gpio_objects : Map GpioObject
  pub uart_objects : Map UartObject
  pub next_object_id : ℕ
  pub next_lease_id : ℕ
  pub bootloader_requested : Bool

-- What a handler does not catch.
pub data Failure : Type 0 where
  core_failure : CoreError → Failure
  gpio_failure : MockGpioError → Failure
  resource_failure : ResourcePayloadError → Failure
  motion_failure : MotionPayloadError → Failure

pub data Exit : Type 0 where
  refuse : StatusCode → Exit
  throw : Failure → Exit

-- A response in the making, and the core behind it: `body` stands behind the status, and `object_id`
-- is the header's.
pub record Answer : Type 0 where
  pub status : StatusCode
  pub object_id : ℕ
  pub body : Bytes
  pub core : RemoteCore

abbrev pub Outcome : Type 0
Outcome = Result Exit Answer

-- `return make_response(request, status);` behind changes of the core
abbrev pub respond : Packet → StatusCode → RemoteCore → Outcome
respond request status core =
    ok (record { status = status; object_id = request.header.object_id; body = []; core = core })

-- A response of status `Ok` with more than the status in its payload.
abbrev pub respond_with : Packet → Bytes → RemoteCore → Outcome
respond_with request body core =
    ok
      (record { status = all_well; object_id = request.header.object_id; body = body; core = core })

-- `if (test) return make_response(request, status);`
abbrev pub refuse_if : Bool → StatusCode → Result Exit (Unit {0})
refuse_if test status = throw_if test (refuse status)

-- A null pointer is refused, and a search that ends at the end.
abbrev pub require {ℓ} : {A : Type ℓ} → Option A → StatusCode → Result Exit A
require none status = err (refuse status)
require (some a) status = ok a

-- `catch (...) { return make_response(request, status); }`
abbrev pub catch_with {ℓ κ} : {E : Type ℓ} {A : Type κ} → Result E A → StatusCode → Result Exit A
catch_with (ok a) status = ok a
catch_with (err e) status = err (refuse status)

-- An exception of another module that the handler lets through.
abbrev pub pass_on {ℓ κ} : {E : Type ℓ} {A : Type κ} → Result E A → (E → Failure) → Result Exit A
pass_on (ok a) failure = ok a
pass_on (err e) failure = err (throw (failure e))

abbrev pub has_bit : ℕ → ℕ → Bool
has_bit flags mask = not (bit_and flags mask == 0)

abbrev pub is_set {ℓ} : {A : Type ℓ} → Option A → Bool
is_set none = false
is_set (some a) = true

unfoldable pub make_response : Packet → StatusCode → Packet
make_response request status = record new_packet {
  header = record (new_packet.header) {
    version = protocol_version;
    message_type = MessageType.response;
    command = request.header.command;
    session_id = request.header.session_id;
    request_id = request.header.request_id;
    object_id = request.header.object_id;
    flags = if code status == 0 then 0 else error_response_flag;
  };
  payload = code status ∷ [];
}

unfoldable pub find_resource : RemoteCore → ℕ → Option ResourceDescriptor
find_resource core resource_id = find_if (λ r. r.resource_id == resource_id) core.resources

unfoldable pub find_instance : RemoteCore → ℕ → ℕ → Option ResourceDescriptor
find_instance core resource_type instance_number =
    find_if (λ r. (r.resource_type == resource_type) && (r.instance_number == instance_number))
      core.resources

unfoldable pub find_contract : RemoteCore → ℕ → Option ResourceContract
find_contract core resource_id = find_if (λ c. c.resource_id == resource_id) core.contracts

-- Whether a resource has a contract with a flag.
unfoldable pub contract_has : Option ResourceContract → ℕ → Bool
contract_has none flag = false
contract_has (some contract) flag = has_bit contract.access_flags flag
