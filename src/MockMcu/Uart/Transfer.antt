-- ===== src/MockMcu/Uart/Transfer.antt =====
-- mock_mcu/src/uart_bsp.cpp: bytes through a port, and the bounds over any calls.
use remote_bsp.Prelude.{
  ℕ, zero, suc, ◌+◌, ◌-◌, ◌≤◌, ◌≡◌, ◌%◌, ◌^◌, min, ltb, refl, sym, ap, ap₂, subst, ◌∙◌, true, false,
  some, List, [], ◌∷◌, All, ◌++◌, length, take, Result, ok, err, if◌then◌else◌, arith,
}
use remote_bsp.Prelude.Map.{find-assign_self}
use remote_bsp.Bytes.{Bytes}
use remote_bsp.MockMcu.Uart.{
  PortState, UartConfig, UartError, MockUartBsp, uint32_max, working_port, size_minus, add_overruns,
  new_uart, configure, read, write, inject_rx, take_tx, set_failed, reset, buffer_overflow,
  store_port, status, status_of,
}
use remote_bsp.MockMcu.Uart.Ports.{
  Bounded, size_minus_lem, working_port_ok, working_port_of, require_port_of, add_overruns_lem,
}
use remote_bsp.MockMcu.Uart.Valid.{
  InCapacity, port-Bounded, configure-InCapacity, read-InCapacity, write-InCapacity,
  inject_rx-InCapacity, take_tx-InCapacity, set_failed-InCapacity, reset-InCapacity,
}

-- A call on the object.
pub data Call : Type 0 where
  configuring : ℕ → UartConfig → Call
  reading : ℕ → ℕ → Call
  writing : ℕ → Bytes → Call
  injecting : ℕ → Bytes → Call
  taking failing recovering resetting : ℕ → Call

unfoldable pub after_call : MockUartBsp → Call → MockUartBsp
after_call u (configuring port config) = (configure u port config).1
after_call u (reading port n) = (read u port n).1
after_call u (writing port bytes) = (write u port bytes).1
after_call u (injecting port bytes) = (inject_rx u port bytes).1
after_call u (taking port) = (take_tx u port).1
after_call u (failing port) = set_failed u port true
after_call u (recovering port) = set_failed u port false
after_call u (resetting port) = (reset u port).1

unfoldable pub after_calls : MockUartBsp → List Call → MockUartBsp
unfolding after_call
after_calls u [] = u
after_calls u (c ∷ calls) = after_calls (after_call u c) calls

after_call-InCapacity : (u : MockUartBsp) (c : Call) → InCapacity u → InCapacity (after_call u c)
unfolding after_call
after_call-InCapacity u (configuring port config) v = configure-InCapacity u port v config
after_call-InCapacity u (reading port n) v = read-InCapacity u port v n
after_call-InCapacity u (writing port bytes) v = write-InCapacity u port v bytes
after_call-InCapacity u (injecting port bytes) v = inject_rx-InCapacity u port v bytes
after_call-InCapacity u (taking port) v = take_tx-InCapacity u port v
after_call-InCapacity u (failing port) v = set_failed-InCapacity u port v true
after_call-InCapacity u (recovering port) v = set_failed-InCapacity u port v false
after_call-InCapacity u (resetting port) v = reset-InCapacity u port v

kept : (u : MockUartBsp) (calls : List Call) → InCapacity u → InCapacity (after_calls u calls)
unfolding after_calls
kept u [] v = v
kept u (c ∷ calls) v = kept (after_call u c) calls (after_call-InCapacity u c v)

new-InCapacity :
    (rx_capacity tx_capacity : ℕ) (u : MockUartBsp)
    → new_uart rx_capacity tx_capacity ≡ some u
    → InCapacity u
unfolding new_uart
new-InCapacity rx_capacity tx_capacity u h = record {
  rx_capacity = ground (arith, h);
  tx_capacity = ground (arith, h);
  ports = subst (All (λ e. Bounded u.rx_capacity u.tx_capacity e.1)) none_yet tt;
}
  where
    none_yet : [] ≡ u.ports
    none_yet = ground (arith, h)

-- After any calls on a constructed object, every port's buffers are within the capacities, and its
-- overruns within 32 bits.
pub after_calls-InCapacity :
    (rx_capacity tx_capacity : ℕ) (u : MockUartBsp) (calls : List Call)
    → new_uart rx_capacity tx_capacity ≡ some u
    → InCapacity (after_calls u calls)
after_calls-InCapacity rx_capacity tx_capacity u calls h =
    kept u calls (new-InCapacity rx_capacity tx_capacity u h)

take_nil : (n : ℕ) → take {A = ℕ} n [] ≡ []
take_nil zero = refl
take_nil (suc n) = refl

take-min : (n : ℕ) (xs : Bytes) → take (min n (length xs)) xs ≡ take n xs
take-min n [] = take_nil (min n 0) ∙ sym (take_nil n)
take-min zero (x ∷ xs) = ap (λ k. take k (x ∷ xs)) none_left
  where
    none_left : min 0 (suc (length xs)) ≡ 0
    none_left = omega arith
take-min (suc n) (x ∷ xs) = ap (λ k. take k (x ∷ xs)) split ∙ ap (◌∷◌ x) (take-min n xs)
  where
    split : min (suc n) (suc (length xs)) ≡ suc (min n (length xs))
    split = omega arith

working_stored :
    (u : MockUartBsp) (port : ℕ) (s t : PortState)
    → working_port u port ≡ ok s
    → t.configured ≡ s.configured
    → t.failed ≡ s.failed
    → working_port (store_port u port t) port ≡ ok t
working_stored u port s t h c f =
    let (found, configured, working) = working_port_ok u port s h in
    working_port_of (store_port u port t) port t (find-assign_self port t u.ports) (c ∙ configured)
      (f ∙ working)

read_lem :
    (u : MockUartBsp) (port n : ℕ) (s : PortState)
    → working_port u port ≡ ok s
    → (read u port n).0 ≡ ok (take n s.rx)
unfolding read
read_lem u port n s h = rw (h, read) (ap ok (take-min n s.rx))

-- A port behind an injection.
abbrev injected : MockUartBsp → PortState → Bytes → PortState
injected u s bytes = record s {
  rx = s.rx ++ take (u.rx_capacity - length s.rx) bytes;
  rx_overruns = min (s.rx_overruns + (length bytes - (u.rx_capacity - length s.rx))) uint32_max;
}

inject_rx_lem :
    (u : MockUartBsp) (port : ℕ) (bytes : Bytes) (s : PortState)
    → InCapacity u
    → working_port u port ≡ ok s
    → length bytes ≤ uint32_max
    → inject_rx u port bytes ≡ (ok tt, store_port u port (injected u s bytes))
unfolding inject_rx
inject_rx_lem u port bytes s v h small =
    rw (h, inject_rx)
      (ap₂
        (λ (r : Bytes) (o : ℕ). (ok tt, store_port u port (record s { rx = r; rx_overruns = o })))
        (ap (λ r. s.rx ++ r)
          (ap (λ a. take (min a (length bytes)) bytes) room
            ∙ take-min (u.rx_capacity - length s.rx) bytes))
        overruns)
  where
    bounded : Bounded u.rx_capacity u.tx_capacity s
    bounded = port-Bounded u port s v (working_port_ok u port s h).0

    room : size_minus u.rx_capacity (length s.rx) ≡ u.rx_capacity - length s.rx
    room = size_minus_lem u.rx_capacity (length s.rx) bounded.rx v.rx_capacity

    overruns :
        add_overruns s.rx_overruns
          (size_minus (length bytes) (min (size_minus u.rx_capacity (length s.rx)) (length bytes)))
        ≡ min (s.rx_overruns + (length bytes - (u.rx_capacity - length s.rx))) uint32_max
    overruns =
        ap (λ a. add_overruns s.rx_overruns (size_minus (length bytes) (min a (length bytes)))) room
        ∙ ap (add_overruns s.rx_overruns) (
            size_minus_lem (length bytes) (min (u.rx_capacity - length s.rx) (length bytes))
              (omega arith) small)
        ∙ add_overruns_lem s.rx_overruns
            (length bytes - min (u.rx_capacity - length s.rx) (length bytes)) bounded.rx_overruns
        ∙ omega arith

-- In an object within its capacities and for an injection of at most 2^32 - 1 bytes: what a working
-- port has received, and the bytes of an injection that still fit, come out of `read`
-- in this order, as many as the call asks for. The bytes that do not fit are counted as overruns, up
-- to the largest number of 32 bits.
pub read-inject_rx :
    (u : MockUartBsp) (port n : ℕ) (bytes : Bytes) (s : PortState)
    → InCapacity u
    → working_port u port ≡ ok s
    → length bytes ≤ uint32_max
    → ((read (inject_rx u port bytes).1 port n).0
        ≡ ok (take n (s.rx ++ take (u.rx_capacity - length s.rx) bytes)))
      × ((status (inject_rx u port bytes).1 port).rx_overruns
          ≡ min (s.rx_overruns + (length bytes - (u.rx_capacity - length s.rx))) uint32_max)
unfolding status
read-inject_rx u port n bytes s v h small =
    let outcome : inject_rx u port bytes ≡ (ok tt, store_port u port (injected u s bytes)) =
      inject_rx_lem u port bytes s v h small in
    (
      ap (λ w. (read w.1 port n).0) outcome
          ∙ read_lem (store_port u port (injected u s bytes)) port n (injected u s bytes)
              (working_stored u port s (injected u s bytes) h refl refl),
      ap (λ w. (status w.1 port).rx_overruns) outcome
          ∙ ap (λ o. (status_of o).rx_overruns)
              (find-assign_self port (injected u s bytes) u.ports),
    )

-- A port behind a write that does not fit, and behind one that does.
abbrev overrun : MockUartBsp → PortState → ℕ → ℕ → PortState
overrun u s n room = record s { tx_overruns = add_overruns s.tx_overruns (size_minus n room) }

abbrev sent : PortState → Bytes → PortState
sent s bytes = record s { tx = s.tx ++ bytes }

abbrev written : MockUartBsp → ℕ → PortState → Bytes → ℕ → Result UartError (Unit {0}) × MockUartBsp
written u port s bytes room =
    if ltb room (length bytes)
    then (err buffer_overflow, store_port u port (overrun u s (length bytes) room))
    else (
      ok tt,
      store_port (record u { write_count = (u.write_count + 1) % 2 ^ 64 }) port (sent s bytes),
    )

write_lem :
    (u : MockUartBsp) (port : ℕ) (bytes : Bytes) (s : PortState)
    → InCapacity u
    → working_port u port ≡ ok s
    → write u port bytes ≡ written u port s bytes (u.tx_capacity - length s.tx)
unfolding write
write_lem u port bytes s v h =
    rw (h, write)
      (ap (written u port s bytes) (
        size_minus_lem u.tx_capacity (length s.tx)
          (port-Bounded u port s v (working_port_ok u port s h).0).tx v.tx_capacity))

take_tx_lem :
    (u : MockUartBsp) (port : ℕ) (s t : PortState) (c r w : ℕ)
    → working_port u port ≡ ok s
    → t.configured ≡ s.configured
    → (take_tx
        (store_port (record u { configure_count = c; read_count = r; write_count = w }) port t)
        port).0
      ≡ ok t.tx
unfolding take_tx
take_tx_lem u port s t c r w h same =
    rw
      (
        require_port_of
            (store_port (record u { configure_count = c; read_count = r; write_count = w }) port t)
            port t (find-assign_self port t u.ports) (same ∙ (working_port_ok u port s h).1),
        take_tx,
      )
      refl

-- In an object within its capacities, a write to a working port succeeds exactly if the bytes fit into what its send buffer has left.
-- `take_tx` then gives the bytes that waited and the written ones behind them; after a write that
-- failed it gives the bytes that waited, none of the written ones.
pub take_tx-write :
    (u : MockUartBsp) (port : ℕ) (bytes : Bytes) (s : PortState)
    → InCapacity u
    → working_port u port ≡ ok s
    → ((write u port bytes).0
        ≡ (if ltb (u.tx_capacity - length s.tx) (length bytes) then err buffer_overflow else ok tt))
      × ((take_tx (write u port bytes).1 port).0
          ≡ ok (if ltb (u.tx_capacity - length s.tx) (length bytes) then s.tx else s.tx ++ bytes))
take_tx-write u port bytes s v h =
    let room : ℕ = u.tx_capacity - length s.tx in
    let outcome : write u port bytes ≡ written u port s bytes room = write_lem u port bytes s v h in
    (
      ap (λ w. w.0) outcome ∙ ground arith,
      ap (λ w. (take_tx w.1 port).0) outcome
          ∙ ground (
            arith,
            take_tx_lem u port s (overrun u s (length bytes) room) u.configure_count u.read_count
                u.write_count h refl,
            take_tx_lem u port s (sent s bytes) u.configure_count u.read_count
                ((u.write_count + 1) % 2 ^ 64) h refl,
          ),
    )
