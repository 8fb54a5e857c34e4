-- ===== src/MockMcu/RemoteCore/Responses.antt =====
-- mock_mcu/src/remote_core.cpp: the response to a request, and the requests of a foreign session.
use remote_bsp.Prelude.{
  ℕ, ◌≡◌, refl, sym, ap, ap₂, subst, ◌∙◌, ◌==◌, not, Bool, true, false, Option, none, some,
  if◌then◌else◌, Result, ok, err, arith, bit_and,
}
use remote_bsp.Prelude.Map.{find}
use remote_bsp.Protocol.MessageType
use remote_bsp.Protocol.Command
use remote_bsp.Protocol.Packet.{Packet, protocol_version, error_response_flag}
use remote_bsp.Toolbusd.RequestManager.{response_is_error, object_matches}
use remote_bsp.MockMcu.RemoteCore.{
  RemoteCore, GpioObject, UartObject, Answer, Outcome, Failure, StatusCode, code, refuse, throw,
  make_response, core_failure, not_request, unsupported_version,
}
use remote_bsp.MockMcu.RemoteCore.Leases.{expire_leases}
use remote_bsp.MockMcu.RemoteCore.GpioHandlers.{handle_gpio_read, handle_gpio_write, is_foreign}
use remote_bsp.MockMcu.RemoteCore.UartHandlers.{handle_uart_read, handle_uart_write}
use remote_bsp.MockMcu.RemoteCore.Handle.{
  handlers, select, dispatch, conclude, answer_packet, handle,
}
use remote_bsp.MockMcu.RemoteCore.Exclusive.{AllCompatible}
use remote_bsp.MockMcu.RemoteCore.Life.{expire_leases-AllCompatible}
use remote_bsp.MockMcu.RemoteCore.Sound.{Ensures}
use remote_bsp.MockMcu.RemoteCore.Requests.{Good, fits, dispatch-Ensures}

-- A response that belongs to a request.
pub record Answers (request response : Packet) : Type 0 where
  pub message_type : response.header.message_type ≡ MessageType.response
  pub command : response.header.command ≡ request.header.command
  pub session_id : response.header.session_id ≡ request.header.session_id
  pub request_id : response.header.request_id ≡ request.header.request_id
  pub object_id : object_matches request.header response.header ≡ true

refusal_error :
    (status : StatusCode)
    → bit_and (if code status == 0 then 0 else error_response_flag) error_response_flag
      ≡ (if code status == 0 then 0 else 1)
refusal_error status = ground arith

answer-Answers :
    (request : Packet) (a : Answer)
    → fits request a ≡ true
    → Answers request (answer_packet request a)
unfolding answer_packet make_response object_matches
answer-Answers request a h = record {
  message_type = refl;
  command = refl;
  session_id = refl;
  request_id = refl;
  object_id = ground (arith, h, refusal_error a.status);
}

refusal-Answers :
    (request : Packet) (status : StatusCode)
    → (code status == 0) ≡ false
    → Answers request (make_response request status)
unfolding make_response object_matches
refusal-Answers request status h = record {
  message_type = refl;
  command = refl;
  session_id = refl;
  request_id = refl;
  object_id = ground (arith, h, refusal_error status);
}

conclude-Answers :
    (request : Packet) (core : RemoteCore) (o : Outcome) (response : Packet)
    → Ensures (λ a. fits request a ≡ true) o
    → (conclude request core o).0 ≡ ok response
    → Answers request response
unfolding conclude
conclude-Answers request core (ok a) response fit h =
    subst (Answers request) (ground (arith, h)) (answer-Answers request a fit)
conclude-Answers request core (err (refuse status)) response fit h =
    subst (Answers request) (ground (arith, h)) (refusal-Answers request status fit)
conclude-Answers request core (err (throw failure)) response fit h = cc

Good-fits :
    (request : Packet) (o : Outcome)
    → Ensures (Good request) o
    → Ensures (λ a. fits request a ≡ true) o
Good-fits request (ok a) h = h.1
Good-fits request (err e) h = h

handle-Answers_of :
    (request response : Packet) (core : RemoteCore) (outcome : Outcome) (b c : Bool) (e f : Failure)
    (x : RemoteCore)
    → Ensures (λ a. fits request a ≡ true) outcome
    → (if b then (err e, x) else (if c then (err f, x) else conclude request core outcome)).0
      ≡ ok response
    → Answers request response
handle-Answers_of request response core outcome true c e f x fit h = cc
handle-Answers_of request response core outcome false true e f x fit h = cc
handle-Answers_of request response core outcome false false e f x fit h =
    conclude-Answers request core outcome response fit h

-- Any packet that `handle` returns, in a core whose leases are compatible, is a response to its
-- request: it has the request's command, session and request ids, and the object id that the request
-- manager of the daemon wants of it.
pub handle-Answers :
    (core : RemoteCore) (request response : Packet) (now : ℕ)
    → AllCompatible core.leases
    → (handle core request now).0 ≡ ok response
    → Answers request response
unfolding handle
handle-Answers core request response now h e =
    handle-Answers_of request response (expire_leases now core).1
      (dispatch (expire_leases now core).1 request now)
      (not (request.header.message_type == MessageType.request))
      (not (request.header.version == protocol_version)) (core_failure not_request)
      (core_failure unsupported_version) core
      (Good-fits request (dispatch (expire_leases now core).1 request now) (
        dispatch-Ensures (expire_leases now core).1 request now
          (expire_leases-AllCompatible now core h)))
      e

-- The commands on an object.
pub data Access : Type 0 where
  reading_pin writing_pin reading_port writing_port : Access

abbrev pub command_of : Access → ℕ
command_of reading_pin = Command.gpio_read
command_of writing_pin = Command.gpio_write
command_of reading_port = Command.uart_read
command_of writing_port = Command.uart_write

abbrev pub pin_owner : Option GpioObject → Option ℕ
pin_owner none = none
pin_owner (some o) = some o.owner_session_id

abbrev pub port_owner : Option UartObject → Option ℕ
port_owner none = none
port_owner (some o) = some o.owner_session_id

-- The session that owns the object of a command.
abbrev pub owner_of : RemoteCore → ℕ → Access → Option ℕ
owner_of core object_id reading_pin = pin_owner (find object_id core.gpio_objects)
owner_of core object_id writing_pin = pin_owner (find object_id core.gpio_objects)
owner_of core object_id reading_port = port_owner (find object_id core.uart_objects)
owner_of core object_id writing_port = port_owner (find object_id core.uart_objects)

abbrev refuses : Outcome → Bool
refuses (ok a) = false
refuses (err (refuse status)) = not (code status == 0)
refuses (err (throw failure)) = false

module _ (core : RemoteCore) (request : Packet) (owner : ℕ) where
  abbrev Foreign : Access → Type 0
  Foreign a =
      (owner_of core request.header.object_id a ≡ some owner)
      × (is_foreign owner request.header.session_id ≡ true)

  read_pin-refuses : Foreign reading_pin → refuses (handle_gpio_read core request) ≡ true
  unfolding handle_gpio_read
  read_pin-refuses h = ground (arith, h.0, h.1)

  write_pin-refuses : Foreign writing_pin → refuses (handle_gpio_write core request) ≡ true
  unfolding handle_gpio_write
  write_pin-refuses h = ground (arith, h.0, h.1)

  read_port-refuses : Foreign reading_port → refuses (handle_uart_read core request) ≡ true
  unfolding handle_uart_read
  read_port-refuses h = ground (arith, h.0, h.1)

  write_port-refuses : Foreign writing_port → refuses (handle_uart_write core request) ≡ true
  unfolding handle_uart_write
  write_port-refuses h = ground (arith, h.0, h.1)

  dispatch-refuses :
      (now : ℕ) (a : Access)
      → request.header.command ≡ command_of a
      → Foreign a
      → refuses (dispatch core request now) ≡ true
  unfolding dispatch select
  dispatch-refuses now reading_pin e h =
      ap (λ c. refuses (select c (handlers core request now))) e ∙ read_pin-refuses h
  dispatch-refuses now writing_pin e h =
      ap (λ c. refuses (select c (handlers core request now))) e ∙ write_pin-refuses h
  dispatch-refuses now reading_port e h =
      ap (λ c. refuses (select c (handlers core request now))) e ∙ read_port-refuses h
  dispatch-refuses now writing_port e h =
      ap (λ c. refuses (select c (handlers core request now))) e ∙ write_port-refuses h

  conclude-refused :
      (o : Outcome)
      → refuses o ≡ true
      → (response : Packet) × ((conclude request core o).0 ≡ ok response)
        × (response_is_error response.header ≡ true)
        × ((conclude request core o).1 ≡ core)
  unfolding conclude make_response
  conclude-refused (ok a) h = cc
  conclude-refused (err (refuse status)) h =
      (make_response request status, refl, ground (arith, h, refusal_error status), refl)
  conclude-refused (err (throw failure)) h = cc

-- A request of the protocol's version is handled in the core without the leases that have expired.
handle-request :
    (core : RemoteCore) (request : Packet) (now : ℕ)
    → request.header.message_type ≡ MessageType.request
    → request.header.version ≡ protocol_version
    → handle core request now
      ≡ conclude request
          (expire_leases now core).1
          (dispatch (expire_leases now core).1 request now)
unfolding handle
handle-request core request now kind version =
    ap₂
      (λ (t v : ℕ).
        if not (t == MessageType.request)
        then (err (core_failure not_request), core)
        else (if not (v == protocol_version)
            then (err (core_failure unsupported_version), core)
            else conclude request (expire_leases now core).1
                (dispatch (expire_leases now core).1 request now)))
      kind version

-- A request message of the core's protocol version to read or write an object that another session
-- owns, in the core without the leases that have expired, is answered by an error response, and changes nothing more.
pub handle-foreign :
    (core : RemoteCore) (request : Packet) (now owner : ℕ) (a : Access)
    → request.header.message_type ≡ MessageType.request
    → request.header.version ≡ protocol_version
    → request.header.command ≡ command_of a
    → owner_of (expire_leases now core).1 request.header.object_id a ≡ some owner
    → is_foreign owner request.header.session_id ≡ true
    → (response : Packet) × ((handle core request now).0 ≡ ok response)
      × (response_is_error response.header ≡ true)
      × ((handle core request now).1 ≡ (expire_leases now core).1)
handle-foreign core request now owner a kind version command owned foreign =
    subst
      (λ (w : Result Failure Packet × RemoteCore).
        (response : Packet) × (w.0 ≡ ok response)
        × (response_is_error response.header ≡ true)
        × (w.1 ≡ expired))
      (sym (handle-request core request now kind version))
      (conclude-refused expired request owner (dispatch expired request now)
        (dispatch-refuses expired request owner now a command (owned, foreign)))
  where
    expired : RemoteCore
    expired = (expire_leases now core).1
