-- ===== src/MockMcu/RemoteCore/Handle.antt =====
-- mock_mcu/src/remote_core.cpp: how the remote core handles a request.
use remote_bsp.Prelude.{ℕ, ◌==◌, not, if◌then◌else◌, List, [], ◌∷◌, ◌++◌, Result, ok, err}
use remote_bsp.Protocol.MessageType
use remote_bsp.Protocol.Command
use remote_bsp.Protocol.Packet.{Packet, protocol_version}
use remote_bsp.MockMcu.RemoteCore.{
  RemoteCore, Answer, Outcome, refuse, throw, Failure, core_failure, not_request,
  unsupported_version, make_response, unknown_command,
}
use remote_bsp.MockMcu.RemoteCore.Leases.{expire_leases}
use remote_bsp.MockMcu.RemoteCore.ResourceHandlers.{
  handle_get_info, handle_get_capability, handle_ping, handle_bootloader_enter,
  handle_resource_enum, handle_resource_describe, handle_resource_status, handle_resource_reset,
  handle_resource_contract,
}
use remote_bsp.MockMcu.RemoteCore.LeaseHandlers.{
  handle_resource_acquire, handle_resource_renew, handle_resource_release,
  handle_resource_lease_status,
}
use remote_bsp.MockMcu.RemoteCore.GpioHandlers.{
  handle_gpio_create, handle_gpio_read, handle_gpio_write,
}
use remote_bsp.MockMcu.RemoteCore.UartHandlers.{
  handle_uart_create, handle_uart_read, handle_uart_write,
}
use remote_bsp.MockMcu.RemoteCore.MotionHandlers.{
  handle_motion_enqueue, handle_motion_status, handle_motion_abort, handle_motion_clear_fault,
}

-- The `switch` on the command, whose cases stand as pairs of a command and its handler's outcome.
abbrev pub handlers : RemoteCore → Packet → ℕ → List (ℕ × Outcome)
handlers core request now =
    (Command.get_info, handle_get_info core request)
    ∷ (Command.get_capability, handle_get_capability core request)
    ∷ (Command.ping, handle_ping core request)
    ∷ (Command.bootloader_enter, handle_bootloader_enter core request)
    ∷ (Command.bootloader_enter_usb, handle_bootloader_enter core request)
    ∷ (Command.resource_enum, handle_resource_enum core request)
    ∷ (Command.resource_describe, handle_resource_describe core request)
    ∷ (Command.resource_status, handle_resource_status core request)
    ∷ (Command.resource_reset, handle_resource_reset core request)
    ∷ (Command.resource_contract, handle_resource_contract core request)
    ∷ (Command.resource_acquire, handle_resource_acquire core request now)
    ∷ (Command.resource_renew, handle_resource_renew core request now)
    ∷ (Command.resource_release, handle_resource_release core request)
    ∷ (Command.resource_lease_status, handle_resource_lease_status core request now)
    ∷ (Command.gpio_create, handle_gpio_create core request)
    ∷ (Command.gpio_read, handle_gpio_read core request)
    ∷ (Command.gpio_write, handle_gpio_write core request)
    ∷ (Command.uart_create, handle_uart_create core request)
    ∷ (Command.uart_read, handle_uart_read core request)
    ∷ (Command.uart_write, handle_uart_write core request)
    ∷ (Command.motion_enqueue, handle_motion_enqueue core request)
    ∷ (Command.motion_status, handle_motion_status core request)
    ∷ (Command.motion_abort, handle_motion_abort core request)
    ∷ (Command.motion_clear_fault, handle_motion_clear_fault core request)
    ∷ []

unfoldable pub select : ℕ → List (ℕ × Outcome) → Outcome
select command [] = err (refuse unknown_command)
select command ((c, outcome) ∷ cases) =
    let rest = select command cases in if c == command then outcome else rest

unfoldable pub dispatch : RemoteCore → Packet → ℕ → Outcome
unfolding select
dispatch core request now = select request.header.command (handlers core request now)

-- The response that an answer stands for.
unfoldable pub answer_packet : Packet → Answer → Packet
unfolding make_response
answer_packet request answer =
    let response = make_response request answer.status in
    record response {
      header = record (response.header) { object_id = answer.object_id };
      payload = response.payload ++ answer.body;
    }

-- What `handle` returns for the outcome of a handler.
unfoldable pub conclude : Packet → RemoteCore → Outcome → Result Failure Packet × RemoteCore
unfolding make_response answer_packet
conclude request core (ok answer) = (ok (answer_packet request answer), answer.core)
conclude request core (err (refuse status)) = (ok (make_response request status), core)
conclude request core (err (throw failure)) = (err failure, core)

unfoldable pub handle : RemoteCore → Packet → ℕ → Result Failure Packet × RemoteCore
unfolding expire_leases dispatch conclude
handle core request now =
    let expired = (expire_leases now core).1 in
    if not (request.header.message_type == MessageType.request)
    then (err (core_failure not_request), core)
    else (if not (request.header.version == protocol_version)
        then (err (core_failure unsupported_version), core)
        else conclude request expired (dispatch expired request now))
