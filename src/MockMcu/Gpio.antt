-- ===== src/MockMcu/Gpio.antt =====
-- mock_mcu/include/remotebsp/mock_mcu/gpio_bsp.hpp and mock_mcu/src/gpio_bsp.cpp: simulated pins. A
-- call that throws returns its error beside the object. The counters are 64 bits wide.
pub mod Laws
use remote_bsp.Prelude.{
  ℕ, ◌+◌, ◌%◌, ◌^◌, Bool, true, false, Option, none, some, List, [], Result, ok, err, if◌then◌else◌,
}
use remote_bsp.Prelude.Map.{Map, find, assign}

pub data GpioDirection : Type 0 where
  input output : GpioDirection

pub data MockGpioError : Type 0 where
  pin_not_configured write_to_input inject_to_output : MockGpioError

pub record PinState : Type 0 where
  pub direction : GpioDirection
  pub value : Bool

pub record MockGpioBsp : Type 0 where
  pub pins : Map PinState
  pub pending_input_values : Map Bool
  pub configure_count : ℕ
  pub read_count : ℕ
  pub write_count : ℕ

abbrev pub new_gpio : MockGpioBsp
new_gpio = record {
  pins = [];
  pending_input_values = [];
  configure_count = 0;
  read_count = 0;
  write_count = 0;
}

abbrev pub count_up : ℕ → ℕ
count_up n = (n + 1) % 2 ^ 64

-- The level that a pin starts with.
abbrev pub value_or : Option Bool → Bool → Bool
value_or none initial = initial
value_or (some v) initial = v

abbrev pub initial_value : MockGpioBsp → ℕ → GpioDirection → Bool → Bool
initial_value g pin input initial = value_or (find pin g.pending_input_values) initial
initial_value g pin output initial = initial

unfoldable pub configure : MockGpioBsp → ℕ → GpioDirection → Bool → MockGpioBsp
configure g pin direction initial = record g {
  pins =
      assign pin (record { direction = direction; value = initial_value g pin direction initial })
        g.pins;
  configure_count = count_up g.configure_count;
}

unfoldable pub read : MockGpioBsp → ℕ → Result MockGpioError Bool × MockGpioBsp
read g pin = elim (find pin g.pins) [
  | none ↦ (err pin_not_configured, g)
  | some s ↦ (ok s.value, record g { read_count = count_up g.read_count })
]

unfoldable pub write_pin :
    MockGpioBsp → ℕ → Bool → GpioDirection → Result MockGpioError (Unit {0}) × MockGpioBsp
write_pin g pin v input = (err write_to_input, g)
write_pin g pin v output = (
  ok tt,
  record g {
    pins = assign pin (record { direction = output; value = v }) g.pins;
    write_count = count_up g.write_count;
  },
)

unfoldable pub write : MockGpioBsp → ℕ → Bool → Result MockGpioError (Unit {0}) × MockGpioBsp
unfolding write_pin
write g pin v = elim (find pin g.pins) [
  | none ↦ (err pin_not_configured, g)
  | some s ↦ write_pin g pin v s.direction
]

unfoldable pub inject_pin :
    MockGpioBsp → ℕ → Bool → GpioDirection → Result MockGpioError (Unit {0}) × MockGpioBsp
inject_pin g pin v output = (err inject_to_output, g)
inject_pin g pin v input = (
  ok tt,
  record g {
    pins = assign pin (record { direction = input; value = v }) g.pins;
    pending_input_values = assign pin v g.pending_input_values;
  },
)

unfoldable pub set_input_value :
    MockGpioBsp → ℕ → Bool → Result MockGpioError (Unit {0}) × MockGpioBsp
unfolding inject_pin
set_input_value g pin v = elim (find pin g.pins) [
  | none ↦ (ok tt, record g { pending_input_values = assign pin v g.pending_input_values })
  | some s ↦ inject_pin g pin v s.direction
]
