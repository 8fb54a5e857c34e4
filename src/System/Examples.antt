-- ===== src/System/Examples.antt =====
-- A ping from the daemon to a node.
use remote_bsp.Prelude.{◌≡◌, refl, none, some, false, [], ◌∷◌, ok, arith}
use remote_bsp.Protocol.Command
use remote_bsp.Protocol.Packet.{Packet, new_packet}
use remote_bsp.Toolbusd.RequestManager.{RequestManager, submit, accept_response, matched}
use remote_bsp.Toolbusd.RequestManager.Valid.{IsValid}
use remote_bsp.MockMcu.RemoteCore.{RemoteCore}
use remote_bsp.MockMcu.RemoteCore.ResourceHandlers.{handle_ping}
use remote_bsp.MockMcu.RemoteCore.Handle.{handle}
use remote_bsp.System.{submit-handle}

abbrev manager : RequestManager
manager = record {
  config = record { timeout = 750; maximum_retries = 2; duplicate_window = 2000 };
  next_request_id = 1;
  pending = [];
  completed = [];
}

manager-IsValid : IsValid manager
manager-IsValid = record {
  pending_distinct = tt;
  completed_distinct = tt;
  entries = tt;
  next_positive = omega arith;
  next_bound = omega arith;
}

abbrev core : RemoteCore
core = record {
  node_info = record {
    uuid = [];
    firmware_major = 1;
    firmware_minor = 0;
    firmware_patch = 0;
    board_type = 7;
    protocol_version = 1;
  };
  capabilities = 0;
  gpio_bsp = none;
  uart_bsp = none;
  motion = none;
  resources = [];
  contracts = [];
  leases = [];
  gpio_objects = [];
  uart_objects = [];
  next_object_id = 1;
  next_lease_id = 1;
  bootloader_requested = false;
}

abbrev ping : Packet
ping = record {
  header = record (new_packet.header) { command = Command.ping; session_id = 5 };
  payload = 42 ∷ [];
}

abbrev pong : Packet
pong = record {
  header = record (new_packet.header) {
    message_type = 2;
    command = Command.ping;
    session_id = 5;
    request_id = 1;
  };
  payload = 0 ∷ 42 ∷ [];
}

submit-handle_example :
    (accept_response (submit manager ping 0).1 pong 20).0
    ≡ record { status = matched; response = some pong }
unfolding submit handle handle_ping remote_bsp.Prelude.Map.find remote_bsp.Prelude.Map.keep_if
submit-handle_example =
    submit-handle manager core ping pong 0 10 20
      (record {
        request_id = 1;
        packet = record ping { header = record (ping.header) { request_id = 1 } };
      })
      manager-IsValid tt refl refl
