-- ===== src/Toolbusd/TrafficControl/Examples.antt =====
-- Frames at 1 Mbit/s, with data at 5 Mbit/s.
use remote_bsp.Prelude.{◌≡◌, refl, true, ok, err, arith}
use remote_bsp.Toolbusd.TrafficControl.{
  classical, can_fd, CanFrameCost, invalid_frame_length, estimate_can_frame_cost,
  canonical_fd_length, first_length, divide_round_up, fd_data_bits, fd_wire_time, classical_bits,
}
use remote_bsp.Toolbusd.TrafficControl.FrameCost.{IsWithin, estimate_can_frame_cost_mono}

-- A classical frame of 8 bytes has 135 bits.
classical_eight :
    estimate_can_frame_cost classical 8 1000000 1000000 true
    ≡ ok (record {
      nominal_phase_bits = 135;
      data_phase_bits = 0;
      wire_time_ns = 135000;
      wire_payload_length = 8;
    })
unfolding estimate_can_frame_cost classical_bits divide_round_up
classical_eight = refl

classical_nine : estimate_can_frame_cost classical 9 1000000 1000000 true ≡ err invalid_frame_length
unfolding estimate_can_frame_cost
classical_nine = refl

fd_too_long : canonical_fd_length 65 ≡ err invalid_frame_length
unfolding canonical_fd_length
fd_too_long = refl

-- The cost of 40 bytes, which take 48 on the wire.
abbrev forty : CanFrameCost
forty = record {
  nominal_phase_bits = 43;
  data_phase_bits = 511;
  wire_time_ns = 145200;
  wire_payload_length = 48;
}

estimate_can_frame_cost_mono_example :
    (cost : CanFrameCost) × (estimate_can_frame_cost can_fd 9 1000000 5000000 true ≡ ok cost)
    × IsWithin 9 cost forty
unfolding estimate_can_frame_cost canonical_fd_length first_length divide_round_up fd_data_bits
    fd_wire_time
estimate_can_frame_cost_mono_example =
    estimate_can_frame_cost_mono can_fd 9 40 1000000 5000000 true forty (omega arith) refl
