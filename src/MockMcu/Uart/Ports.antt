-- ===== src/MockMcu/Uart/Ports.antt =====
-- mock_mcu/src/uart_bsp.cpp: the bounds of one port.
use remote_bsp.Prelude.{
  ℕ, ◌+◌, ◌-◌, ◌≤◌, ◌≡◌, min, refl, true, false, some, length, ok, arith, Option-cases,
  Result-cases, inl, inr,
}
use remote_bsp.Prelude.Map.{find}
use remote_bsp.MockMcu.Uart.{
  PortState, MockUartBsp, uint32_max, require_port, working_port, size_minus, add_overruns,
}

-- The buffers of a port within their capacities, its overruns within 32 bits.
pub record Bounded (rx_capacity tx_capacity : ℕ) (s : PortState) : Type 0 where
  pub rx : length s.rx ≤ rx_capacity
  pub tx : length s.tx ≤ tx_capacity
  pub rx_overruns : s.rx_overruns ≤ uint32_max
  pub tx_overruns : s.tx_overruns ≤ uint32_max

pub size_minus_lem : (a b : ℕ) → b ≤ a → a ≤ uint32_max → size_minus a b ≡ a - b
unfolding size_minus
size_minus_lem a b h1 h2 = omega arith

pub add_overruns-bound :
    (overruns bytes : ℕ) → overruns ≤ uint32_max → add_overruns overruns bytes ≤ uint32_max
unfolding add_overruns
add_overruns-bound overruns bytes h = ground arith

-- Adding overruns is adding numbers, up to the largest number of 32 bits.
pub add_overruns_lem :
    (overruns bytes : ℕ)
    → overruns ≤ uint32_max
    → add_overruns overruns bytes ≡ min (overruns + bytes) uint32_max
unfolding add_overruns
add_overruns_lem overruns bytes h = ground arith

pub require_port_ok :
    (u : MockUartBsp) (port : ℕ) (s : PortState)
    → require_port u port ≡ ok s
    → (find port u.ports ≡ some s) × (s.configured ≡ true)
unfolding require_port
require_port_ok u port s h = elim (Option-cases (find port u.ports)) [
  | inl e ↦ ground (arith, h, e)
  | inr (t, e) ↦ ground (arith, h, e)
]

pub require_port_of :
    (u : MockUartBsp) (port : ℕ) (s : PortState)
    → find port u.ports ≡ some s
    → s.configured ≡ true
    → require_port u port ≡ ok s
unfolding require_port
require_port_of u port s h c = rw (h, require_port) (rw c refl)

pub working_port_ok :
    (u : MockUartBsp) (port : ℕ) (s : PortState)
    → working_port u port ≡ ok s
    → (find port u.ports ≡ some s) × (s.configured ≡ true) × (s.failed ≡ false)
unfolding working_port
working_port_ok u port s h = elim (Result-cases (require_port u port)) [
  | inl (e, r) ↦ ground (arith, h, r)
  | inr (t, r) ↦ ground (arith, h, r, require_port_ok u port t r)
]

pub working_port_of :
    (u : MockUartBsp) (port : ℕ) (s : PortState)
    → find port u.ports ≡ some s
    → s.configured ≡ true
    → s.failed ≡ false
    → working_port u port ≡ ok s
unfolding working_port
working_port_of u port s h c f = rw (require_port_of u port s h c, working_port) (rw f refl)
