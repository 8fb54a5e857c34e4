-- ===== src/MockMcu/Examples.antt =====
-- Pins and a port of the simulated microcontroller.
use remote_bsp.Prelude.{List, ◌≡◌, refl, ◌==◌, if◌then◌else◌, [], ◌∷◌, ok, true, false, arith}
use remote_bsp.Prelude.Map.{find}
use remote_bsp.MockMcu.Gpio
use remote_bsp.MockMcu.Gpio.{MockGpioBsp, new_gpio, output, input}
use remote_bsp.MockMcu.Gpio.Laws
use remote_bsp.MockMcu.Gpio.Laws.{read-write, read-set_input_value}
use remote_bsp.MockMcu.Uart
use remote_bsp.MockMcu.Uart.{
  MockUartBsp, PortState, UartConfig, no_parity, new_port, default_config, buffer_overflow,
  uint32_max, status,
}
use remote_bsp.MockMcu.Uart.Valid.{InCapacity}
use remote_bsp.MockMcu.Uart.Transfer.{
  configuring, injecting, reading, after_calls, after_calls-InCapacity, read-inject_rx,
  take_tx-write,
}

abbrev driving : MockGpioBsp
driving = record new_gpio { pins = (4, record { direction = output; value = false }) ∷ [] }

-- The pin is read, an injection into it fails, and another pin is configured.
abbrev pin_calls : List Laws.Call
pin_calls = Laws.reading 4 ∷ Laws.injecting 4 false ∷ Laws.configuring 9 output false ∷ []

read-write_example :
    ((Gpio.read (Laws.after_calls (Gpio.write driving 4 true).1 pin_calls) 4).0 ≡ ok true)
    × ((Gpio.read (Gpio.write driving 4 true).1 9).0
        ≡ (if 4 == 9 then ok true else (Gpio.read driving 9).0))
unfolding Gpio.write Gpio.write_pin find
read-write_example =
    read-write driving 4 9 true pin_calls refl (tt, (tt, (λ e. absurd (omega (arith, e)), tt)))

read-set_input_value_example :
    (Gpio.read (Gpio.configure (Gpio.set_input_value new_gpio 9 true).1 9 input false) 9).0
    ≡ ok true
unfolding Gpio.set_input_value find
read-set_input_value_example = read-set_input_value new_gpio 9 true false refl

abbrev port : PortState
port = record new_port { rx = 1 ∷ []; tx = 2 ∷ []; configured = true }

abbrev uart : MockUartBsp
uart = record {
  ports = (0, port) ∷ [];
  rx_capacity = 3;
  tx_capacity = 3;
  configure_count = 1;
  read_count = 0;
  write_count = 1;
}

uart-InCapacity : InCapacity uart
uart-InCapacity = record {
  rx_capacity = omega arith;
  tx_capacity = omega arith;
  ports = (
    record {
      rx = omega arith;
      tx = omega arith;
      rx_overruns = omega arith;
      tx_overruns = omega arith;
    },
    tt,
  );
}

abbrev unused : MockUartBsp
unused = record {
  ports = [];
  rx_capacity = 3;
  tx_capacity = 3;
  configure_count = 0;
  read_count = 0;
  write_count = 0;
}

after_calls-InCapacity_example : InCapacity (
    after_calls unused
      (configuring 0 default_config ∷ injecting 0 (1 ∷ 2 ∷ 3 ∷ 4 ∷ []) ∷ reading 0 2 ∷ []))
unfolding Uart.new_uart
after_calls-InCapacity_example =
    after_calls-InCapacity 3 3 unused
      (configuring 0 default_config ∷ injecting 0 (1 ∷ 2 ∷ 3 ∷ 4 ∷ []) ∷ reading 0 2 ∷ []) refl

-- Two of the three bytes fit.
read-inject_rx_example :
    ((Uart.read (Uart.inject_rx uart 0 (7 ∷ 8 ∷ 9 ∷ [])).1 0 10).0 ≡ ok (1 ∷ 7 ∷ 8 ∷ []))
    × ((status (Uart.inject_rx uart 0 (7 ∷ 8 ∷ 9 ∷ [])).1 0).rx_overruns ≡ 1)
unfolding Uart.working_port find
read-inject_rx_example =
    read-inject_rx uart 0 10 (7 ∷ 8 ∷ 9 ∷ []) port uart-InCapacity refl (omega arith)

take_tx-write_example :
    ((Uart.write uart 0 (5 ∷ 6 ∷ [])).0 ≡ ok tt)
    × ((Uart.take_tx (Uart.write uart 0 (5 ∷ 6 ∷ [])).1 0).0 ≡ ok (2 ∷ 5 ∷ 6 ∷ []))
unfolding Uart.working_port find
take_tx-write_example = take_tx-write uart 0 (5 ∷ 6 ∷ []) port uart-InCapacity refl
