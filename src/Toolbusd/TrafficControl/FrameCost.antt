-- ===== src/Toolbusd/TrafficControl/FrameCost.antt =====
-- toolbusd/src/traffic_control.cpp: the cost of a frame beside that of a longer one.
use remote_bsp.Prelude.{
  ℕ, ◌+◌, ◌*◌, ◌/◌, ◌%◌, ◌^◌, ◌≤◌, ◌≡◌, refl, ap, subst, ◌||◌, throw_if, ◌>>◌, ◌>>=◌, ltb, ◌==◌,
  Bool, true, false, if◌then◌else◌, Result, ok, err, arith,
}
use native.Mathlib.Nat.{div-add-mod, div-le_self, div-mul-le_self, le-div_iff_mul-le}
use remote_bsp.Toolbusd.TrafficControl.{
  TrafficBusMode, classical, can_fd, CanFrameCost, TrafficError, divide_round_up,
  canonical_fd_length, classical_bits, fd_data_bits, fd_wire_time, classical_cost,
  invalid_configuration, invalid_frame_length, fd_cost, estimate_can_frame_cost,
}
use remote_bsp.Toolbusd.TrafficControl.FrameLength.{
  canonical_fd_length_mono, canonical_fd_length-bound, canonical_fd_length-covers,
}

divide_round_up-le : (n m d : ℕ) → 1 ≤ d → n ≤ m → divide_round_up n d ≤ divide_round_up m d
unfolding divide_round_up
divide_round_up-le n m d one h = ground (arith, quotient, rest)
  where
    quotient : n / d ≤ m / d
    quotient = (le-div_iff_mul-le one).1 (omega (arith, h, div-mul-le_self n d))

    rest : n / d ≡ m / d → n % d ≤ m % d
    rest e = omega (arith, h, div-add-mod n d, div-add-mod m d, ap (λ q. d * q) e)

fd_data_bits_mono : (v w : ℕ) → v ≤ w → fd_data_bits v ≤ fd_data_bits w
unfolding fd_data_bits divide_round_up
fd_data_bits_mono v w h = ground arith

divide_round_up-bound : (n d : ℕ) → divide_round_up n d ≤ n + 1
unfolding divide_round_up
divide_round_up-bound n d = ground (arith, div-le_self n d)

-- The time in nanoseconds of some bits, which are few enough for 64 bits.
time_mono :
    (v w d : ℕ)
    → 1 ≤ d
    → v ≤ w
    → w ≤ 1000
    → divide_round_up (v * 1000000000 % 2 ^ 64) d ≤ divide_round_up (w * 1000000000 % 2 ^ 64) d
time_mono v w d one h small =
    divide_round_up-le (v * 1000000000 % 2 ^ 64) (w * 1000000000 % 2 ^ 64) d one (omega arith)

fd_wire_time_mono :
    (v w d e : ℕ) → 1 ≤ e → v ≤ w → w ≤ 1000 → fd_wire_time v d e ≤ fd_wire_time w d e
unfolding fd_wire_time
fd_wire_time_mono v w d e one h small = omega (
  arith,
  time_mono v w e one h small,
  divide_round_up-bound (43 * 1000000000 % 2 ^ 64) d,
  divide_round_up-bound (w * 1000000000 % 2 ^ 64) e,
  divide_round_up-bound (v * 1000000000 % 2 ^ 64) e,
)

fd_data_bits-bound : (w : ℕ) → w ≤ 64 → fd_data_bits w ≤ 1000
unfolding fd_data_bits divide_round_up
fd_data_bits-bound w h = ground arith

-- A cost that is no higher than another one, of a frame with room for `n` bytes.
abbrev pub IsWithin : ℕ → CanFrameCost → CanFrameCost → Type 0
IsWithin n cost limit =
    (cost.wire_time_ns ≤ limit.wire_time_ns)
    × (cost.wire_payload_length ≤ limit.wire_payload_length)
    × (n ≤ cost.wire_payload_length)

throw_if-ok :
    {A : Type 0} (t : Bool) (e : TrafficError) (x y : A)
    → (throw_if t e >> ok x) ≡ ok y
    → (t ≡ false) × (x ≡ y)
throw_if-ok true e x y h = cc
throw_if-ok false e x y h = (refl, cc)

bind-ok :
    {A B : Type 0} (r : Result TrafficError A) (f : A → B) (y : B)
    → (r >>= λ w. ok (f w)) ≡ ok y
    → (w : A) × (r ≡ ok w) × (f w ≡ y)
bind-ok (ok w) f y h = (w, refl, cc)
bind-ok (err e) f y h = cc

classical_of : ℕ → ℕ → CanFrameCost
classical_of n rate = record {
  nominal_phase_bits = classical_bits n % 2 ^ 16;
  data_phase_bits = 0;
  wire_time_ns = divide_round_up (classical_bits n * 1000000000 % 2 ^ 64) rate;
  wire_payload_length = n % 2 ^ 8;
}

fd_of : ℕ → ℕ → ℕ → CanFrameCost
fd_of arbitration_rate rate w = record {
  nominal_phase_bits = 43;
  data_phase_bits = fd_data_bits w % 2 ^ 16;
  wire_time_ns = fd_wire_time (fd_data_bits w) arbitration_rate rate;
  wire_payload_length = w % 2 ^ 8;
}

classical_bits_mono :
    (a b : ℕ) → a ≤ b → b ≤ 8 → (classical_bits a ≤ classical_bits b) × (classical_bits b ≤ 1000)
unfolding classical_bits
classical_bits_mono a b h small = ground arith

classical_cost_mono :
    (a b rate : ℕ) (limit : CanFrameCost)
    → a ≤ b
    → 1 ≤ rate
    → classical_cost b rate ≡ ok limit
    → (cost : CanFrameCost) × (classical_cost a rate ≡ ok cost) × IsWithin a cost limit
unfolding classical_cost classical_of
classical_cost_mono a b rate limit le one h =
    let (short, made) = throw_if-ok (ltb 8 b) invalid_frame_length (classical_of b rate) limit h in
    let small : b ≤ 8 = ground (arith, short) in
    let (more, few) = classical_bits_mono a b le small in
    (
      classical_of a rate,
      ground (arith, le, small),
      subst (IsWithin a (classical_of a rate)) made (
        time_mono (classical_bits a) (classical_bits b) rate one more few,
        omega (arith, le, small),
        omega (arith, le, small),
      ),
    )

fd_cost_mono :
    (a b arbitration_rate data_rate : ℕ) (bit_rate_switch : Bool) (limit : CanFrameCost)
    → a ≤ b
    → 1 ≤ arbitration_rate
    → 1 ≤ data_rate
    → fd_cost b arbitration_rate data_rate bit_rate_switch ≡ ok limit
    → (cost : CanFrameCost) × (fd_cost a arbitration_rate data_rate bit_rate_switch ≡ ok cost)
      × IsWithin a cost limit
unfolding fd_cost fd_of
fd_cost_mono a b arbitration_rate data_rate bit_rate_switch limit le one two h =
    let rate : ℕ = if bit_rate_switch then data_rate else arbitration_rate in
    let (w, long, made) = bind-ok (canonical_fd_length b) (fd_of arbitration_rate rate) limit h in
    let (v, short, less) = canonical_fd_length_mono a b w le long in
    let small : w ≤ 64 = canonical_fd_length-bound b w long in
    (
      fd_of arbitration_rate rate v,
      ap (λ r. r >>= λ w. ok (fd_of arbitration_rate rate w)) short,
      subst (IsWithin a (fd_of arbitration_rate rate v)) made (
        fd_wire_time_mono (fd_data_bits v) (fd_data_bits w) arbitration_rate rate
            (ground (arith, one, two)) (fd_data_bits_mono v w less) (fd_data_bits-bound w small),
        omega (arith, less, small),
        omega (arith, less, small, canonical_fd_length-covers a v short),
      ),
    )

-- The price of a frame grows with its payload: wherever a payload has a cost, a shorter payload has
-- one on the same bus, at most as much time and as many bytes on the wire, and room for its bytes.
pub estimate_can_frame_cost_mono :
    (mode : TrafficBusMode) (shorter longer arbitration_rate data_rate : ℕ) (bit_rate_switch : Bool)
    (limit : CanFrameCost)
    → shorter ≤ longer
    → estimate_can_frame_cost mode longer arbitration_rate data_rate bit_rate_switch ≡ ok limit
    → (cost : CanFrameCost) × (estimate_can_frame_cost mode shorter arbitration_rate data_rate
          bit_rate_switch
        ≡ ok cost)
      × IsWithin shorter cost limit
unfolding estimate_can_frame_cost
estimate_can_frame_cost_mono mode a b arbitration_rate data_rate bit_rate_switch limit le h =
    choose mode ((arbitration_rate == 0) || (data_rate == 0)) refl h
  where
    choose :
        (mode : TrafficBusMode) (invalid : Bool)
        → ((arbitration_rate == 0) || (data_rate == 0)) ≡ invalid
        → (throw_if invalid invalid_configuration
            >> elim mode as (λ m. Result TrafficError CanFrameCost) [
              | classical ↦ classical_cost b arbitration_rate
              | can_fd ↦ fd_cost b arbitration_rate data_rate bit_rate_switch
            ])
          ≡ ok limit
        → (cost : CanFrameCost) × ((throw_if invalid invalid_configuration
              >> elim mode as (λ m. Result TrafficError CanFrameCost) [
                | classical ↦ classical_cost a arbitration_rate
                | can_fd ↦ fd_cost a arbitration_rate data_rate bit_rate_switch
              ])
            ≡ ok cost)
          × IsWithin a cost limit
    choose mode true e h = absurd cc
    choose classical false e h =
        classical_cost_mono a b arbitration_rate limit le (ground (arith, e)) h
    choose can_fd false e h =
        fd_cost_mono a b arbitration_rate data_rate bit_rate_switch limit le (ground (arith, e))
          (ground (arith, e)) h
