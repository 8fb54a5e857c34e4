-- ===== src/MockMcu/Uart.antt =====
-- mock_mcu/include/remotebsp/mock_mcu/uart_bsp.hpp and mock_mcu/src/uart_bsp.cpp: simulated serial
-- ports with bounded buffers. A call that throws returns its error beside the object that it leaves.
-- `std::size_t` and the counters are 64 bits wide, the overruns 32. A queue stands front first.
pub mod Ports
pub mod Valid
pub mod Transfer
use remote_bsp.Prelude.{
  ℕ, ◌+◌, ◌-◌, ◌%◌, ◌^◌, min, ltb, ◌==◌, not, ◌||◌, Bool, true, false, Option, none, some, List, [],
  ◌++◌, length, take, drop, Result, ok, err, if◌then◌else◌,
}
use remote_bsp.Prelude.Map.{Map, find, assign}
use remote_bsp.Bytes.{Bytes}

pub data UartParity : Type 0 where
  no_parity odd_parity even_parity : UartParity

pub record UartConfig : Type 0 where
  pub baud_rate : ℕ
  pub data_bits : ℕ
  pub stop_bits : ℕ
  pub parity : UartParity

abbrev pub default_config : UartConfig
default_config = record { baud_rate = 0; data_bits = 0; stop_bits = 0; parity = no_parity }

pub record UartRuntimeStatus : Type 0 where
  pub failed : Bool
  pub rx_buffered : ℕ
  pub tx_buffered : ℕ
  pub rx_overruns : ℕ
  pub tx_overruns : ℕ

pub data UartError : Type 0 where
  port_not_configured buffer_overflow port_failed : UartError

pub record PortState : Type 0 where
  pub config : UartConfig
  pub rx : Bytes
  pub tx : Bytes
  pub configured : Bool
  pub failed : Bool
  pub rx_overruns : ℕ
  pub tx_overruns : ℕ

abbrev pub new_port : PortState
new_port = record {
  config = default_config;
  rx = [];
  tx = [];
  configured = false;
  failed = false;
  rx_overruns = 0;
  tx_overruns = 0;
}

pub record MockUartBsp : Type 0 where
  pub ports : Map PortState
  pub rx_capacity : ℕ
  pub tx_capacity : ℕ
  pub configure_count : ℕ
  pub read_count : ℕ
  pub write_count : ℕ

abbrev pub uint32_max : ℕ
uint32_max = 0xFFFFFFFF

abbrev pub count_up : ℕ → ℕ
count_up n = (n + 1) % 2 ^ 64

-- The constructor, which throws `std::invalid_argument`.
unfoldable pub new_uart : ℕ → ℕ → Option MockUartBsp
new_uart rx_capacity tx_capacity =
    if (rx_capacity == 0)
      || (tx_capacity == 0)
      || ltb uint32_max rx_capacity
      || ltb uint32_max tx_capacity
    then none
    else some (record {
      ports = [];
      rx_capacity = rx_capacity;
      tx_capacity = tx_capacity;
      configure_count = 0;
      read_count = 0;
      write_count = 0;
    })

-- `ports_[port]`
abbrev pub port_or_new : Option PortState → PortState
port_or_new none = new_port
port_or_new (some s) = s

abbrev pub store_port : MockUartBsp → ℕ → PortState → MockUartBsp
store_port u port s = record u { ports = assign port s u.ports }

unfoldable pub require_port : MockUartBsp → ℕ → Result UartError PortState
require_port u port = elim (find port u.ports) [
  | none ↦ err port_not_configured
  | some s ↦ if not s.configured then err port_not_configured else ok s
]

-- A port that is configured and has not failed.
unfoldable pub working_port : MockUartBsp → ℕ → Result UartError PortState
unfolding require_port
working_port u port = elim (require_port u port) [
  | err e ↦ err e
  | ok s ↦ if s.failed then err port_failed else ok s
]

-- `a - b` of two `std::size_t`
unfoldable pub size_minus : ℕ → ℕ → ℕ
size_minus a b = (a + 2 ^ 64 - b) % 2 ^ 64

-- The overruns with so many bytes more, up to the largest number of 32 bits.
unfoldable pub add_overruns : ℕ → ℕ → ℕ
add_overruns overruns bytes =
    let overflow = min bytes uint32_max in
    if ltb (uint32_max - overruns) overflow then uint32_max else overruns + overflow

unfoldable pub configure : MockUartBsp → ℕ → UartConfig → Result UartError (Unit {0}) × MockUartBsp
configure u port config =
    let s = port_or_new (find port u.ports) in
    if s.failed then (err port_failed, store_port u port s) else (
      ok tt,
      store_port (record u { configure_count = count_up u.configure_count }) port
          (record s {
            config = config;
            rx = [];
            tx = [];
            configured = true;
            rx_overruns = 0;
            tx_overruns = 0;
          }),
    )

unfoldable pub read : MockUartBsp → ℕ → ℕ → Result UartError Bytes × MockUartBsp
unfolding working_port
read u port maximum_length = elim (working_port u port) [
  | err e ↦ (err e, u)
  | ok s ↦
      let count = min maximum_length (length s.rx) in
      (
        ok (take count s.rx),
        store_port (record u { read_count = count_up u.read_count }) port
            (record s { rx = drop count s.rx }),
      )
]

unfoldable pub write : MockUartBsp → ℕ → Bytes → Result UartError (Unit {0}) × MockUartBsp
unfolding working_port add_overruns size_minus
write u port bytes = elim (working_port u port) [
  | err e ↦ (err e, u)
  | ok s ↦
      if ltb (size_minus u.tx_capacity (length s.tx)) (length bytes)
      then (
        err buffer_overflow,
        store_port u port (record s {
          tx_overruns =
              add_overruns s.tx_overruns
                (size_minus (length bytes) (size_minus u.tx_capacity (length s.tx)));
        }),
      )
      else (
        ok tt,
        store_port (record u { write_count = count_up u.write_count }) port
            (record s { tx = s.tx ++ bytes }),
      )
]

unfoldable pub inject_rx : MockUartBsp → ℕ → Bytes → Result UartError (Unit {0}) × MockUartBsp
unfolding working_port add_overruns size_minus
inject_rx u port bytes = elim (working_port u port) [
  | err e ↦ (err e, u)
  | ok s ↦
      let accepted = min (size_minus u.rx_capacity (length s.rx)) (length bytes) in
      (
        ok tt,
        store_port u port (record s {
          rx = s.rx ++ take accepted bytes;
          rx_overruns = add_overruns s.rx_overruns (size_minus (length bytes) accepted);
        }),
      )
]

unfoldable pub take_tx : MockUartBsp → ℕ → Result UartError Bytes × MockUartBsp
unfolding require_port
take_tx u port = elim (require_port u port) [
  | err e ↦ (err e, u)
  | ok s ↦ (ok s.tx, store_port u port (record s { tx = [] }))
]

abbrev pub status_of : Option PortState → UartRuntimeStatus
status_of none = record {
  failed = false;
  rx_buffered = 0;
  tx_buffered = 0;
  rx_overruns = 0;
  tx_overruns = 0;
}
status_of (some s) = record {
  failed = s.failed;
  rx_buffered = length s.rx % 2 ^ 32;
  tx_buffered = length s.tx % 2 ^ 32;
  rx_overruns = s.rx_overruns;
  tx_overruns = s.tx_overruns;
}

unfoldable pub status : MockUartBsp → ℕ → UartRuntimeStatus
status u port = status_of (find port u.ports)

unfoldable pub set_failed : MockUartBsp → ℕ → Bool → MockUartBsp
set_failed u port failed =
    store_port u port (record (port_or_new (find port u.ports)) { failed = failed })

unfoldable pub reset : MockUartBsp → ℕ → Result UartError (Unit {0}) × MockUartBsp
unfolding require_port
reset u port = elim (require_port u port) [
  | err e ↦ (err e, u)
  | ok s ↦ (
    ok tt,
    store_port u port
        (record s { rx = []; tx = []; rx_overruns = 0; tx_overruns = 0; failed = false }),
  )
]
