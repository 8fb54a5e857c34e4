-- ===== src/MockMcu/RemoteCore/Examples.antt =====
-- A board with one pin, on which session 7 takes a lease and makes an object.
use remote_bsp.Prelude.{
  ℕ, ◌≡◌, refl, Bool, true, false, Option, none, some, List, [], ◌∷◌, Result, ok, err, arith,
}
use remote_bsp.Prelude.Map.{find}
use remote_bsp.Bytes.{Bytes}
use remote_bsp.Protocol.Command
use remote_bsp.Protocol.Packet.{Packet, new_packet}
use remote_bsp.Toolbusd.RequestManager.{response_is_error}
use remote_bsp.MockMcu.Gpio.{new_gpio}
use remote_bsp.MockMcu.RemoteCore.{
  RemoteCore, NodeInfo, CoreError, make_response, invalid_payload, all_well,
}
use remote_bsp.MockMcu.RemoteCore.Leases.{
  expire_leases, sweep, sweep_leases, leases_of, session_has_exclusive_lease,
}
use remote_bsp.MockMcu.RemoteCore.ResourceHandlers.{new_core, handle_ping}
use remote_bsp.MockMcu.RemoteCore.Handle.{handle}
use remote_bsp.MockMcu.RemoteCore.Life.{Board, handling, after_calls, after_calls-exclusive}
use remote_bsp.MockMcu.RemoteCore.Responses.{Answers, handle-Answers, handle-foreign, writing_pin}

abbrev info : NodeInfo
info = record {
  uuid = 1 ∷ 2 ∷ 3 ∷ 4 ∷ 5 ∷ 6 ∷ 7 ∷ 8 ∷ 9 ∷ 10 ∷ 11 ∷ 12 ∷ 13 ∷ 14 ∷ 15 ∷ 16 ∷ [];
  firmware_major = 1;
  firmware_minor = 0;
  firmware_patch = 0;
  board_type = 7;
  protocol_version = 1;
}

-- Pin 4, with a contract that allows leases.
abbrev board : Board
board = record {
  node_info = info;
  capabilities = 1;
  gpio_bsp = some new_gpio;
  uart_bsp = none;
  resources =
      record {
        resource_id = 3;
        resource_type = 1;
        instance_number = 4;
        flags = 0;
        rx_capacity = 0;
        tx_capacity = 0;
      }
      ∷ [];
  contracts =
      record {
        resource_id = 3;
        version = 1;
        access_flags = 0x13;
        timing_resolution_ns = 0;
        worst_case_latency_us = 0;
        maximum_operations_per_second = 0;
        queue_capacity = 0;
        maximum_rx_bits_per_second = 0;
        maximum_tx_bits_per_second = 0;
      }
      ∷ [];
  motion = none;
}

abbrev core : RemoteCore
core = record {
  node_info = board.node_info;
  capabilities = board.capabilities;
  gpio_bsp = board.gpio_bsp;
  uart_bsp = board.uart_bsp;
  motion = board.motion;
  resources = board.resources;
  contracts = board.contracts;
  leases = [];
  gpio_objects = [];
  uart_objects = [];
  next_object_id = 1;
  next_lease_id = 1;
  bootloader_requested = false;
}

abbrev request : ℕ → ℕ → ℕ → Bytes → Packet
request command session_id object_id payload = record {
  header = record (new_packet.header) {
    command = command;
    session_id = session_id;
    request_id = 1;
    object_id = object_id;
  };
  payload = payload;
}

-- An exclusive lease of resource 3 for 1000 ms.
abbrev acquire : ℕ → Packet
acquire session_id =
    request Command.resource_acquire session_id 0 (3 ∷ 0 ∷ 0 ∷ 0 ∷ 0xE8 ∷ 3 ∷ 0 ∷ 0 ∷ 2 ∷ [])

-- Pin 4 as an output.
abbrev create : ℕ → Packet
create session_id = request Command.gpio_create session_id 0 (4 ∷ 0 ∷ 1 ∷ 0 ∷ [])

abbrev owned : RemoteCore
owned = after_calls core (handling (acquire 7) 0 ∷ handling (create 7) 5 ∷ [])

after_calls-exclusive_example : ◌≡◌ {A = ℕ} 7 7
unfolding new_core after_calls session_has_exclusive_lease leases_of find
    remote_bsp.MockMcu.RemoteCore.LeaseHandlers.handle_resource_acquire
    remote_bsp.Protocol.Resource.Leases.decode_resource_lease_request remote_bsp.Bytes.read_u32
    remote_bsp.MockMcu.RemoteCore.find_resource remote_bsp.MockMcu.RemoteCore.contract_has
    remote_bsp.MockMcu.RemoteCore.find_contract
    remote_bsp.MockMcu.RemoteCore.Leases.resource_has_objects
    remote_bsp.Protocol.Resource.Leases.encode_resource_lease_info
    remote_bsp.MockMcu.RemoteCore.Leases.make_lease_info remote_bsp.Prelude.Map.assign
after_calls-exclusive_example =
    after_calls-exclusive board core (handling (acquire 7) 0 ∷ handling (acquire 9) 5 ∷ []) 3 7 7
      refl refl refl

abbrev ping : Packet
ping = request Command.ping 5 0 (42 ∷ [])

abbrev pong : Packet
pong = record {
  header = record (new_packet.header) {
    message_type = 2;
    command = Command.ping;
    session_id = 5;
    request_id = 1;
  };
  payload = 0 ∷ 42 ∷ [];
}

handle-Answers_example : Answers ping pong
unfolding handle handle_ping
handle-Answers_example = handle-Answers core ping pong 0 tt refl

handle-foreign_example :
    (response : Packet) × ((handle owned (request Command.gpio_write 9 1 (1 ∷ [])) 10).0
      ≡ ok response)
    × (response_is_error response.header ≡ true)
    × ((handle owned (request Command.gpio_write 9 1 (1 ∷ [])) 10).1 ≡ (expire_leases 10 owned).1)
unfolding after_calls expire_leases find
    remote_bsp.MockMcu.RemoteCore.GpioHandlers.handle_gpio_create
    remote_bsp.MockMcu.RemoteCore.LeaseHandlers.handle_resource_acquire
    remote_bsp.Protocol.Resource.Leases.decode_resource_lease_request remote_bsp.Bytes.read_u32
    remote_bsp.MockMcu.RemoteCore.find_resource remote_bsp.MockMcu.RemoteCore.contract_has
    remote_bsp.MockMcu.RemoteCore.find_contract leases_of
    remote_bsp.MockMcu.RemoteCore.Leases.resource_has_objects
    remote_bsp.Protocol.Resource.Leases.encode_resource_lease_info
    remote_bsp.MockMcu.RemoteCore.Leases.make_lease_info remote_bsp.Prelude.Map.assign
    remote_bsp.MockMcu.RemoteCore.find_instance remote_bsp.Bytes.read_u16
    session_has_exclusive_lease remote_bsp.Prelude.Map.emplace
handle-foreign_example =
    handle-foreign owned (request Command.gpio_write 9 1 (1 ∷ [])) 10 7 writing_pin refl refl refl
      refl refl
