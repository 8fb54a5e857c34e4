-- ===== src/MockMcu/Uart/Valid.antt =====
-- mock_mcu/src/uart_bsp.cpp: the bounds of all ports.
use remote_bsp.Prelude.{
  ℕ, ◌+◌, ◌≤◌, ◌≡◌, ◌%◌, ◌^◌, min, ltb, refl, Bool, true, false, Option, none, some, [], ◌++◌,
  length, take, drop, length-append, length-take, length-drop, ok, All, arith, Bool-cases,
  Result-cases, inl, inr,
}
use remote_bsp.Prelude.Map.{find}
use remote_bsp.Prelude.Entries.{All-assign, All-find}
use remote_bsp.Bytes.{Bytes}
use remote_bsp.MockMcu.Uart.{
  PortState, UartConfig, MockUartBsp, uint32_max, port_or_new, require_port, working_port,
  size_minus, add_overruns, configure, read, write, inject_rx, take_tx, set_failed, reset,
  store_port,
}
use remote_bsp.MockMcu.Uart.Ports.{
  Bounded, size_minus_lem, add_overruns-bound, require_port_ok, working_port_ok,
}

pub record InCapacity (u : MockUartBsp) : Type 0 where
  pub rx_capacity : u.rx_capacity ≤ uint32_max
  pub tx_capacity : u.tx_capacity ≤ uint32_max
  pub ports : All (λ e. Bounded u.rx_capacity u.tx_capacity e.1) u.ports

pub port-Bounded :
    (u : MockUartBsp) (port : ℕ) (s : PortState)
    → InCapacity u
    → find port u.ports ≡ some s
    → Bounded u.rx_capacity u.tx_capacity s
port-Bounded u port s v h =
    All-find (λ e. Bounded u.rx_capacity u.tx_capacity e.1) port s u.ports h v.ports

new_port-Bounded :
    (r t : ℕ) (o : Option PortState)
    → ((s : PortState) → o ≡ some s → Bounded r t s)
    → Bounded r t (port_or_new o)
new_port-Bounded r t none h = record {
  rx = omega arith;
  tx = omega arith;
  rx_overruns = omega arith;
  tx_overruns = omega arith;
}
new_port-Bounded r t (some s) h = h s refl

-- The counters are no part of the invariant.
stored :
    (u : MockUartBsp) (port : ℕ) (s : PortState) (c r w : ℕ)
    → InCapacity u
    → Bounded u.rx_capacity u.tx_capacity s
    → InCapacity
        (store_port (record u { configure_count = c; read_count = r; write_count = w }) port s)
stored u port s c r w v b = record {
  rx_capacity = v.rx_capacity;
  tx_capacity = v.tx_capacity;
  ports = All-assign (λ e. Bounded u.rx_capacity u.tx_capacity e.1) port s u.ports b v.ports;
}

module _ (u : MockUartBsp) (port : ℕ) (v : InCapacity u) where
  working-Bounded :
      (s : PortState) → working_port u port ≡ ok s → Bounded u.rx_capacity u.tx_capacity s
  working-Bounded s h = port-Bounded u port s v (working_port_ok u port s h).0

  required-Bounded :
      (s : PortState) → require_port u port ≡ ok s → Bounded u.rx_capacity u.tx_capacity s
  required-Bounded s h = port-Bounded u port s v (require_port_ok u port s h).0

  entry-Bounded : Bounded u.rx_capacity u.tx_capacity (port_or_new (find port u.ports))
  entry-Bounded =
      new_port-Bounded u.rx_capacity u.tx_capacity (find port u.ports)
        (λ s h. port-Bounded u port s v h)

  pub configure-InCapacity : (config : UartConfig) → InCapacity (configure u port config).1
  unfolding configure
  configure-InCapacity config = ground (
    arith,
    stored u port (port_or_new (find port u.ports)) u.configure_count u.read_count u.write_count v
        entry-Bounded,
    stored u port
        (record (port_or_new (find port u.ports)) {
          config = config;
          rx = [];
          tx = [];
          configured = true;
          rx_overruns = 0;
          tx_overruns = 0;
        })
        ((u.configure_count + 1) % 2 ^ 64) u.read_count u.write_count v empty,
  )
    where
      empty : Bounded u.rx_capacity u.tx_capacity (record (port_or_new (find port u.ports)) {
        config = config;
        rx = [];
        tx = [];
        configured = true;
        rx_overruns = 0;
        tx_overruns = 0;
      })
      empty = record {
        rx = omega arith;
        tx = omega arith;
        rx_overruns = omega arith;
        tx_overruns = omega arith;
      }

  pub read-InCapacity : (n : ℕ) → InCapacity (read u port n).1
  unfolding read
  read-InCapacity n = elim (Result-cases (working_port u port)) [
    | inl (e, h) ↦ rw (h, read) v
    | inr (s, h) ↦
        rw (h, read)
          (stored u port (record s { rx = drop (min n (length s.rx)) s.rx }) u.configure_count
            ((u.read_count + 1) % 2 ^ 64) u.write_count v (shorter s (working-Bounded s h)))
  ]
    where
      shorter :
          (s : PortState)
          → Bounded u.rx_capacity u.tx_capacity s
          → Bounded u.rx_capacity u.tx_capacity (record s { rx = drop (min n (length s.rx)) s.rx })
      shorter s b =
          let before : length s.rx ≤ u.rx_capacity = b.rx in
          record {
            rx = omega (arith, length-drop (min n (length s.rx)) s.rx);
            tx = b.tx;
            rx_overruns = b.rx_overruns;
            tx_overruns = b.tx_overruns;
          }

  -- A port with more overruns, and one with more bytes to send.
  overrun-Bounded :
      (s : PortState) (bytes : ℕ)
      → Bounded u.rx_capacity u.tx_capacity s
      → Bounded u.rx_capacity u.tx_capacity
          (record s { tx_overruns = add_overruns s.tx_overruns bytes })
  overrun-Bounded s bytes b = record {
    rx = b.rx;
    tx = b.tx;
    rx_overruns = b.rx_overruns;
    tx_overruns = add_overruns-bound s.tx_overruns bytes b.tx_overruns;
  }

  longer-Bounded :
      (s : PortState) (bytes : Bytes)
      → Bounded u.rx_capacity u.tx_capacity s
      → ltb (size_minus u.tx_capacity (length s.tx)) (length bytes) ≡ false
      → Bounded u.rx_capacity u.tx_capacity (record s { tx = s.tx ++ bytes })
  longer-Bounded s bytes b h = record {
    rx = b.rx;
    tx =
        let room : length bytes ≤ size_minus u.tx_capacity (length s.tx) = ground (arith, h) in
        let before : length s.tx ≤ u.tx_capacity = b.tx in
        omega (
          arith,
          length-append s.tx bytes,
          size_minus_lem u.tx_capacity (length s.tx) before v.tx_capacity,
        );
    rx_overruns = b.rx_overruns;
    tx_overruns = b.tx_overruns;
  }

  pub write-InCapacity : (bytes : Bytes) → InCapacity (write u port bytes).1
  unfolding write
  write-InCapacity bytes = elim (Result-cases (working_port u port)) [
    | inl (e, h) ↦ rw (h, write) v
    | inr (s, h) ↦
        rw (h, write)
          (elim (Bool-cases (ltb (size_minus u.tx_capacity (length s.tx)) (length bytes))) [
            | inl full ↦ rw full (
                stored u port
                  (record s {
                    tx_overruns =
                        add_overruns s.tx_overruns
                          (size_minus (length bytes) (size_minus u.tx_capacity (length s.tx)));
                  })
                  u.configure_count u.read_count u.write_count v
                  (overrun-Bounded s
                    (size_minus (length bytes) (size_minus u.tx_capacity (length s.tx)))
                    (working-Bounded s h)))
            | inr room ↦ rw room (
                stored u port (record s { tx = s.tx ++ bytes }) u.configure_count u.read_count
                  ((u.write_count + 1) % 2 ^ 64) v
                  (longer-Bounded s bytes (working-Bounded s h) room))
          ])
  ]

  -- How many bytes of an injection a port takes.
  abbrev room : PortState → ℕ → ℕ
  room s n = min (size_minus u.rx_capacity (length s.rx)) n

  injected-Bounded :
      (s : PortState) (bytes : Bytes)
      → Bounded u.rx_capacity u.tx_capacity s
      → Bounded u.rx_capacity u.tx_capacity (record s {
        rx = s.rx ++ take (room s (length bytes)) bytes;
        rx_overruns =
            add_overruns s.rx_overruns (size_minus (length bytes) (room s (length bytes)));
      })
  injected-Bounded s bytes b = record {
    rx =
        let before : length s.rx ≤ u.rx_capacity = b.rx in
        omega (
          arith,
          length-append s.rx (take (room s (length bytes)) bytes),
          length-take (room s (length bytes)) bytes,
          size_minus_lem u.rx_capacity (length s.rx) before v.rx_capacity,
        );
    tx = b.tx;
    rx_overruns =
        add_overruns-bound s.rx_overruns (size_minus (length bytes) (room s (length bytes)))
          b.rx_overruns;
    tx_overruns = b.tx_overruns;
  }

  pub inject_rx-InCapacity : (bytes : Bytes) → InCapacity (inject_rx u port bytes).1
  unfolding inject_rx
  inject_rx-InCapacity bytes = elim (Result-cases (working_port u port)) [
    | inl (e, h) ↦ rw (h, inject_rx) v
    | inr (s, h) ↦
        rw (h, inject_rx)
          (stored u port
            (record s {
              rx = s.rx ++ take (room s (length bytes)) bytes;
              rx_overruns =
                  add_overruns s.rx_overruns (size_minus (length bytes) (room s (length bytes)));
            })
            u.configure_count u.read_count u.write_count v
            (injected-Bounded s bytes (working-Bounded s h)))
  ]

  pub take_tx-InCapacity : InCapacity (take_tx u port).1
  unfolding take_tx
  take_tx-InCapacity = elim (Result-cases (require_port u port)) [
    | inl (e, h) ↦ rw (h, take_tx) v
    | inr (s, h) ↦
        rw (h, take_tx)
          (stored u port (record s { tx = [] }) u.configure_count u.read_count u.write_count v
            (record {
              rx = (required-Bounded s h).rx;
              tx = omega arith;
              rx_overruns = (required-Bounded s h).rx_overruns;
              tx_overruns = (required-Bounded s h).tx_overruns;
            }))
  ]

  pub set_failed-InCapacity : (failed : Bool) → InCapacity (set_failed u port failed)
  unfolding set_failed
  set_failed-InCapacity failed =
      stored u port (record (port_or_new (find port u.ports)) { failed = failed }) u.configure_count
        u.read_count u.write_count v
        (record {
          rx = entry-Bounded.rx;
          tx = entry-Bounded.tx;
          rx_overruns = entry-Bounded.rx_overruns;
          tx_overruns = entry-Bounded.tx_overruns;
        })

  pub reset-InCapacity : InCapacity (reset u port).1
  unfolding reset
  reset-InCapacity = elim (Result-cases (require_port u port)) [
    | inl (e, h) ↦ rw (h, reset) v
    | inr (s, h) ↦
        rw (h, reset)
          (stored u port
            (record s { rx = []; tx = []; rx_overruns = 0; tx_overruns = 0; failed = false })
            u.configure_count u.read_count u.write_count v
            (record {
              rx = omega arith;
              tx = omega arith;
              rx_overruns = omega arith;
              tx_overruns = omega arith;
            }))
  ]
