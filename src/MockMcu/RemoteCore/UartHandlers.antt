-- ===== src/MockMcu/RemoteCore/UartHandlers.antt =====
-- mock_mcu/src/remote_core.cpp: the handlers of the commands on serial ports, and the events of the
-- ports that stream.
use remote_bsp.Prelude.{
  ℕ, ◌+◌, ◌-◌, ◌%◌, ◌^◌, ltb, ◌==◌, not, ◌&&◌, ◌||◌, Bool, Option, none, some, if◌then◌else◌, List,
  [], ◌∷◌, ◌++◌, length, any, drop, is_empty, Result, ok, err, ◌>>◌, ◌>>=◌,
}
use remote_bsp.Prelude.Map.{Map, find, emplace}
use remote_bsp.Bytes.{Bytes, byte_at, read_u16, read_u32}
use remote_bsp.Protocol.MessageType
use remote_bsp.Protocol.Command
use remote_bsp.Protocol.Packet.{Packet, new_packet, maximum_payload_size}
use remote_bsp.MockMcu.Uart
use remote_bsp.MockMcu.Uart.{
  MockUartBsp, UartParity, no_parity, odd_parity, even_parity, UartConfig, UartError,
}
use remote_bsp.MockMcu.RemoteCore.{
  RemoteCore, UartObject, Outcome, respond, respond_with, refuse_if, require, find_instance,
  capability_uart, all_well, invalid_payload, object_not_found, access_denied, resource_exhausted,
  resource_busy,
}
use remote_bsp.MockMcu.RemoteCore.Leases.{has_entry, holds}
use remote_bsp.MockMcu.RemoteCore.ResourceHandlers.{resource_type_uart, uart_error_status}
use remote_bsp.MockMcu.RemoteCore.GpioHandlers.{require_bsp, object_owner, next_object, is_foreign}

abbrev pub to_parity : ℕ → UartParity
to_parity value = if value == 0 then no_parity else (if value == 1 then odd_parity else even_parity)

-- The payload of `UartCreate` that is not accepted.
unfoldable pub invalid_config : Bytes → Bool
invalid_config payload =
    let data_bits = byte_at payload 5 in
    let stop_bits = byte_at payload 6 in
    (read_u32 (drop 1 payload) == 0)
    || ltb data_bits 5
    || ltb 8 data_bits
    || (not (stop_bits == 1) && not (stop_bits == 2))
    || ltb 2 (byte_at payload 7)
    || ((length payload == 9) && ltb 1 (byte_at payload 8))

abbrev pub requested_config : Bytes → UartConfig
requested_config payload = record {
  baud_rate = read_u32 (drop 1 payload);
  data_bits = byte_at payload 5;
  stop_bits = byte_at payload 6;
  parity = to_parity (byte_at payload 7);
}

unfoldable pub create_port : RemoteCore → Packet → MockUartBsp → ℕ × ℕ → ℕ → Outcome
unfolding uart_error_status
create_port core request bsp (resource_id, owner_session_id) port =
    let configured = Uart.configure bsp port (requested_config request.payload) in
    elim configured.0 [
      | err e ↦ respond request (uart_error_status e) (record core { uart_bsp = some configured.1 })
      | ok u ↦ ok (record {
        status = all_well;
        object_id = core.next_object_id;
        body = [];
        core = record core {
          uart_bsp = some configured.1;
          next_object_id = next_object core.next_object_id;
          uart_objects =
              emplace core.next_object_id
                (record {
                  port = port;
                  resource_id = resource_id;
                  owner_session_id = owner_session_id;
                  streaming = (length request.payload == 9) && (byte_at request.payload 8 == 1);
                  event_sequence = 0;
                })
                core.uart_objects;
        };
      })
    ]

unfoldable pub handle_uart_create : RemoteCore → Packet → Outcome
unfolding invalid_config object_owner create_port
handle_uart_create core request = do
  bsp ← require_bsp core core.uart_bsp capability_uart
  refuse_if
      (not (request.header.object_id == 0)
        || (not (length request.payload == 8) && not (length request.payload == 9)))
      invalid_payload
  refuse_if (invalid_config request.payload) invalid_payload
  refuse_if (core.next_object_id == 0) resource_exhausted
  let port = byte_at request.payload 0
  let resource = find_instance core resource_type_uart port
  refuse_if
      (any (λ r. r.resource_type == resource_type_uart) core.resources && not (has_entry resource))
      object_not_found
  owner ← object_owner core resource request.header.session_id
  refuse_if (holds (λ o. o.port == port) core.uart_objects) resource_busy
  create_port core request bsp owner port

-- The bytes that a port has read, as an answer.
unfoldable pub answer_uart_read :
    RemoteCore → Packet → ℕ → Result UartError Bytes × MockUartBsp → Outcome
unfolding uart_error_status
answer_uart_read core request maximum_length (outcome, bsp) =
    let after = record core { uart_bsp = some bsp } in
    elim outcome [
      | err e ↦ respond request (uart_error_status e) after
      | ok bytes ↦
          if ltb maximum_length (length bytes) || ltb (maximum_payload_size - 1) (length bytes)
          then respond request invalid_payload after
          else respond_with request bytes after
    ]

unfoldable pub handle_uart_read : RemoteCore → Packet → Outcome
unfolding answer_uart_read
handle_uart_read core request = do
  bsp ← require_bsp core core.uart_bsp capability_uart
  refuse_if ((request.header.object_id == 0) || not (length request.payload == 2)) invalid_payload
  let maximum_length = read_u16 request.payload
  refuse_if ((maximum_length == 0) || ltb (maximum_payload_size - 1) maximum_length) invalid_payload
  found ← require (find request.header.object_id core.uart_objects) object_not_found
  refuse_if (is_foreign found.owner_session_id request.header.session_id) access_denied
  refuse_if found.streaming access_denied
  answer_uart_read core request maximum_length (Uart.read bsp found.port maximum_length)

unfoldable pub handle_uart_write : RemoteCore → Packet → Outcome
unfolding uart_error_status
handle_uart_write core request = do
  bsp ← require_bsp core core.uart_bsp capability_uart
  refuse_if ((request.header.object_id == 0) || is_empty request.payload) invalid_payload
  found ← require (find request.header.object_id core.uart_objects) object_not_found
  refuse_if (is_foreign found.owner_session_id request.header.session_id) access_denied
  let written = Uart.write bsp found.port request.payload
  let after = record core { uart_bsp = some written.1 }
  elim written.0 [
    | err e ↦ respond request (uart_error_status e) after
    | ok u ↦ respond request all_well after
  ]

-- The event of a streaming object with bytes, and the object behind it.
abbrev pub numbered : UartObject → UartObject
numbered o = record o { event_sequence = (o.event_sequence + 1) % 2 ^ 32 }

abbrev pub uart_event : ℕ → UartObject → Bytes → Packet
uart_event object_id o bytes = record new_packet {
  header = record (new_packet.header) {
    message_type = MessageType.event;
    command = Command.uart_rx_event;
    request_id = (o.event_sequence + 1) % 2 ^ 32;
    object_id = object_id;
  };
  payload = bytes;
}

-- What a streaming object has read, as an object and its events.
unfoldable pub object_events : ℕ → UartObject → Result UartError Bytes → UartObject × List Packet
object_events object_id o (err e) = (o, [])
object_events object_id o (ok []) = (o, [])
object_events object_id o (ok (b ∷ bytes)) = (numbered o, uart_event object_id o (b ∷ bytes) ∷ [])

-- The loop over the objects.
unfoldable pub poll_objects :
    ℕ → Map UartObject → MockUartBsp → Map UartObject × MockUartBsp × List Packet
unfolding object_events
poll_objects maximum_payload [] bsp = ([], bsp, [])
poll_objects maximum_payload ((object_id, o) ∷ objects) bsp =
    let (outcome, after) =
      if o.streaming then Uart.read bsp o.port maximum_payload else (ok [], bsp) in
    let (polled, events) = object_events object_id o outcome in
    let (rest, final, later) = poll_objects maximum_payload objects after in
    ((object_id, polled) ∷ rest, final, events ++ later)

unfoldable pub poll_bsp : RemoteCore → ℕ → Option MockUartBsp → List Packet × RemoteCore
unfolding poll_objects
poll_bsp core maximum_payload none = ([], core)
poll_bsp core maximum_payload (some bsp) =
    let (objects, after, events) = poll_objects maximum_payload core.uart_objects bsp in
    (events, record core { uart_bsp = some after; uart_objects = objects })

-- `none` stands for `std::invalid_argument`.
unfoldable pub poll_uart_events : RemoteCore → ℕ → Option (List Packet × RemoteCore)
unfolding poll_bsp
poll_uart_events core maximum_payload =
    if (maximum_payload == 0) || ltb maximum_payload_size maximum_payload
    then none
    else some (poll_bsp core maximum_payload core.uart_bsp)
