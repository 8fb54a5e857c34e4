-- ===== src/MockMcu/RemoteCore/Sound.antt =====
-- mock_mcu/src/remote_core.cpp: the object id and the leases behind each handler.
use remote_bsp.Prelude.{
  ℕ, ◌≡◌, refl, ◌==◌, not, ◌&&◌, Bool, true, false, if◌then◌else◌, ok, err, arith, ◌⊎◌, inl, inr,
  Result-cases, List, [], ◌∷◌,
}
use remote_bsp.Protocol.Packet.{Packet}
use remote_bsp.MockMcu.RemoteCore.{
  RemoteCore, Answer, Outcome, Exit, refuse, throw, code, object_not_found, access_denied,
}
use remote_bsp.Protocol.Motion.Segment.{MotionAxisMovePayload, decode_motion_segment}
use remote_bsp.MockMcu.RemoteCore.ResourceHandlers.{
  handle_get_info, handle_get_capability, handle_ping, handle_bootloader_enter,
  handle_resource_enum, handle_resource_describe, request_resource_id, handle_resource_status,
  handle_resource_reset, reset_resource, reset_uart, handle_resource_contract,
}
use remote_bsp.MockMcu.RemoteCore.GpioHandlers.{
  handle_gpio_read, handle_gpio_write, handle_gpio_create, create_pin, object_owner,
}
use remote_bsp.MockMcu.RemoteCore.UartHandlers.{
  handle_uart_read, answer_uart_read, handle_uart_write, handle_uart_create, create_port,
}
use remote_bsp.MockMcu.RemoteCore.MotionHandlers.{
  handle_motion_enqueue, answer_enqueue, check_moves, handle_motion_status, handle_motion_abort,
  handle_motion_clear_fault,
}
use remote_bsp.MockMcu.RemoteCore.LeaseHandlers.{
  handle_resource_acquire, answer_acquire, grant_lease, handle_resource_renew, renew_lease,
  handle_resource_release, drop_lease, handle_resource_lease_status,
}

-- A refusal is no success.
abbrev pub Fails : Exit → Type 0
Fails (refuse status) = (code status == 0) ≡ false
Fails (throw failure) = Unit {0}

-- An answer of an outcome has a property.
abbrev pub Ensures : (Answer → Type 0) → Outcome → Type 0
Ensures P (ok a) = P a
Ensures P (err e) = Fails e

abbrev pub SameObject : Packet → Answer → Type 0
SameObject request a = a.object_id ≡ request.header.object_id

abbrev pub SameLeases : RemoteCore → Answer → Type 0
SameLeases core a = a.core.leases ≡ core.leases

abbrev pub Same : RemoteCore → Packet → Answer → Type 0
Same core request a = SameLeases core a × SameObject request a

-- A new object has an id that is not 0; a request for one has 0 there, and so has a refusal.
abbrev pub creates : Packet → Answer → Bool
creates request a =
    if code a.status == 0
    then (request.header.object_id == 0) && not (a.object_id == 0)
    else a.object_id == request.header.object_id

abbrev pub Creates : RemoteCore → Packet → Answer → Type 0
Creates core request a = SameLeases core a × (creates request a ≡ true)

pub get_info-Same :
    (core : RemoteCore) (request : Packet)
    → Ensures (Same core request) (handle_get_info core request)
unfolding handle_get_info
get_info-Same core request = ground arith

pub get_capability-Same :
    (core : RemoteCore) (request : Packet)
    → Ensures (Same core request) (handle_get_capability core request)
unfolding handle_get_capability
get_capability-Same core request = ground arith

pub ping-Same :
    (core : RemoteCore) (request : Packet) → Ensures (Same core request) (handle_ping core request)
unfolding handle_ping
ping-Same core request = ground arith

pub bootloader_enter-Same :
    (core : RemoteCore) (request : Packet)
    → Ensures (Same core request) (handle_bootloader_enter core request)
unfolding handle_bootloader_enter
bootloader_enter-Same core request = ground arith

pub resource_enum-Same :
    (core : RemoteCore) (request : Packet)
    → Ensures (Same core request) (handle_resource_enum core request)
unfolding handle_resource_enum
resource_enum-Same core request = ground arith

pub resource_describe-Same :
    (core : RemoteCore) (request : Packet)
    → Ensures (Same core request) (handle_resource_describe core request)
unfolding handle_resource_describe request_resource_id
resource_describe-Same core request = ground arith

pub resource_status-Same :
    (core : RemoteCore) (request : Packet)
    → Ensures (Same core request) (handle_resource_status core request)
unfolding handle_resource_status request_resource_id
resource_status-Same core request = ground arith

pub resource_reset-Same :
    (core : RemoteCore) (request : Packet)
    → Ensures (Same core request) (handle_resource_reset core request)
unfolding handle_resource_reset request_resource_id reset_resource reset_uart
resource_reset-Same core request = ground arith

pub resource_contract-Same :
    (core : RemoteCore) (request : Packet)
    → Ensures (Same core request) (handle_resource_contract core request)
unfolding handle_resource_contract request_resource_id
resource_contract-Same core request = ground arith

pub gpio_read-Same :
    (core : RemoteCore) (request : Packet)
    → Ensures (Same core request) (handle_gpio_read core request)
unfolding handle_gpio_read
gpio_read-Same core request = ground arith

pub gpio_write-Same :
    (core : RemoteCore) (request : Packet)
    → Ensures (Same core request) (handle_gpio_write core request)
unfolding handle_gpio_write
gpio_write-Same core request = ground arith

pub uart_read-Same :
    (core : RemoteCore) (request : Packet)
    → Ensures (Same core request) (handle_uart_read core request)
unfolding handle_uart_read answer_uart_read
uart_read-Same core request = ground arith

pub uart_write-Same :
    (core : RemoteCore) (request : Packet)
    → Ensures (Same core request) (handle_uart_write core request)
unfolding handle_uart_write
uart_write-Same core request = ground arith

check_moves-cases :
    (core : RemoteCore) (session_id : ℕ) (axes : List MotionAxisMovePayload)
    → (check_moves core session_id axes ≡ ok tt)
      ⊎ ((check_moves core session_id axes ≡ err (refuse object_not_found))
          ⊎ (check_moves core session_id axes ≡ err (refuse access_denied)))
unfolding check_moves
check_moves-cases core session_id [] = inl refl
check_moves-cases core session_id (axis ∷ axes) =
    ground (arith, check_moves-cases core session_id axes)

pub motion_enqueue-Same :
    (core : RemoteCore) (request : Packet)
    → Ensures (Same core request) (handle_motion_enqueue core request)
unfolding handle_motion_enqueue answer_enqueue
motion_enqueue-Same core request = elim (Result-cases (decode_motion_segment request.payload)) [
  | inl (e, failed) ↦ ground (arith, failed)
  | inr (s, decoded) ↦
      ground (arith, decoded, check_moves-cases core request.header.session_id s.axes)
]

pub motion_status-Same :
    (core : RemoteCore) (request : Packet)
    → Ensures (Same core request) (handle_motion_status core request)
unfolding handle_motion_status
motion_status-Same core request = ground arith

pub motion_abort-Same :
    (core : RemoteCore) (request : Packet)
    → Ensures (Same core request) (handle_motion_abort core request)
unfolding handle_motion_abort
motion_abort-Same core request = ground arith

pub motion_clear_fault-Same :
    (core : RemoteCore) (request : Packet)
    → Ensures (Same core request) (handle_motion_clear_fault core request)
unfolding handle_motion_clear_fault
motion_clear_fault-Same core request = ground arith

pub gpio_create-Creates :
    (core : RemoteCore) (request : Packet)
    → Ensures (Creates core request) (handle_gpio_create core request)
unfolding handle_gpio_create create_pin object_owner
gpio_create-Creates core request = ground arith

pub uart_create-Creates :
    (core : RemoteCore) (request : Packet)
    → Ensures (Creates core request) (handle_uart_create core request)
unfolding handle_uart_create create_port object_owner
uart_create-Creates core request = ground arith

pub resource_acquire-SameObject :
    (core : RemoteCore) (request : Packet) (now : ℕ)
    → Ensures (SameObject request) (handle_resource_acquire core request now)
unfolding handle_resource_acquire answer_acquire grant_lease
resource_acquire-SameObject core request now = ground arith

pub resource_renew-SameObject :
    (core : RemoteCore) (request : Packet) (now : ℕ)
    → Ensures (SameObject request) (handle_resource_renew core request now)
unfolding handle_resource_renew renew_lease
resource_renew-SameObject core request now = ground arith

pub resource_release-SameObject :
    (core : RemoteCore) (request : Packet)
    → Ensures (SameObject request) (handle_resource_release core request)
unfolding handle_resource_release drop_lease
resource_release-SameObject core request = ground arith

pub resource_lease_status-Same :
    (core : RemoteCore) (request : Packet) (now : ℕ)
    → Ensures (Same core request) (handle_resource_lease_status core request now)
unfolding handle_resource_lease_status
resource_lease_status-Same core request now = ground arith
