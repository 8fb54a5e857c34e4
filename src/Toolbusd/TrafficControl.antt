-- ===== src/Toolbusd/TrafficControl.antt =====
-- toolbusd/include/remotebsp/toolbusd/traffic_control.hpp and toolbusd/src/traffic_control.cpp: what
-- a frame costs on the CAN bus and the class of a packet. The controller itself, which measures its
-- budgets in `long double`, is left out.
pub mod FrameLength
pub mod FrameCost
mod Examples
use remote_bsp.Prelude.{
  ℕ, ◌+◌, ◌-◌, ◌*◌, ◌/◌, ◌%◌, ◌^◌, ltb, leb, ◌==◌, ◌||◌, Bool, true, false, if◌then◌else◌, List, [],
  ◌∷◌, Result, ok, err, throw_if, ◌>>◌, ◌>>=◌,
}
use remote_bsp.Protocol.Command
use remote_bsp.Protocol.Packet.{Packet}

pub data TrafficBusMode : Type 0 where
  classical can_fd : TrafficBusMode

pub data TrafficClass : Type 0 where
  safety motion system interactive streaming bulk : TrafficClass

pub record CanFrameCost : Type 0 where
  pub nominal_phase_bits : ℕ
  pub data_phase_bits : ℕ
  pub wire_time_ns : ℕ
  pub wire_payload_length : ℕ

pub data TrafficError : Type 0 where
  invalid_configuration invalid_frame_length : TrafficError

unfoldable pub divide_round_up : ℕ → ℕ → ℕ
divide_round_up numerator denominator =
    numerator / denominator + (if numerator % denominator == 0 then 0 else 1)

-- The loop over the lengths that a CAN FD frame can have.
unfoldable pub first_length : ℕ → List ℕ → Result TrafficError ℕ
first_length length [] = err invalid_frame_length
first_length length (candidate ∷ lengths) =
    let rest = first_length length lengths in if leb length candidate then ok candidate else rest

abbrev pub fd_lengths : List ℕ
fd_lengths = 12 ∷ 16 ∷ 20 ∷ 24 ∷ 32 ∷ 48 ∷ 64 ∷ []

unfoldable pub canonical_fd_length : ℕ → Result TrafficError ℕ
unfolding first_length
canonical_fd_length length = if leb length 8 then ok length else first_length length fd_lengths

-- The bits of a classical frame, of at most 8 bytes.
unfoldable pub classical_bits : ℕ → ℕ
classical_bits payload_length =
    let stuffed_region_bits = 34 + payload_length * 8 in
    let stuff_bits = if stuffed_region_bits == 0 then 0 else (stuffed_region_bits - 1) / 4 in
    47 + payload_length * 8 + stuff_bits

-- The bits of a CAN FD frame that are sent at the rate of the data, for at most 64 bytes.
unfoldable pub fd_data_bits : ℕ → ℕ
unfolding divide_round_up
fd_data_bits wire_length =
    let raw_data_phase_bits = wire_length * 8 + (if leb wire_length 16 then 17 else 21) in
    raw_data_phase_bits + divide_round_up raw_data_phase_bits 4 + 4

unfoldable pub fd_wire_time : ℕ → ℕ → ℕ → ℕ
unfolding divide_round_up
fd_wire_time data_phase_bits arbitration_rate data_rate =
    (divide_round_up (43 * 1000000000 % 2 ^ 64) arbitration_rate
      + divide_round_up (data_phase_bits * 1000000000 % 2 ^ 64) data_rate)
    % 2 ^ 64

unfoldable pub classical_cost : ℕ → ℕ → Result TrafficError CanFrameCost
unfolding classical_bits divide_round_up
classical_cost payload_length arbitration_rate =
    throw_if (ltb 8 payload_length) invalid_frame_length
    >> ok (record {
      nominal_phase_bits = classical_bits payload_length % 2 ^ 16;
      data_phase_bits = 0;
      wire_time_ns =
          divide_round_up (classical_bits payload_length * 1000000000 % 2 ^ 64) arbitration_rate;
      wire_payload_length = payload_length % 2 ^ 8;
    })

unfoldable pub fd_cost : ℕ → ℕ → ℕ → Bool → Result TrafficError CanFrameCost
unfolding canonical_fd_length fd_data_bits fd_wire_time
fd_cost payload_length arbitration_rate data_rate bit_rate_switch =
    canonical_fd_length payload_length >>= λ wire_length. ok (record {
      nominal_phase_bits = 43;
      data_phase_bits = fd_data_bits wire_length % 2 ^ 16;
      wire_time_ns =
          fd_wire_time (fd_data_bits wire_length) arbitration_rate
            (if bit_rate_switch then data_rate else arbitration_rate);
      wire_payload_length = wire_length % 2 ^ 8;
    })

unfoldable pub estimate_can_frame_cost :
    TrafficBusMode → ℕ → ℕ → ℕ → Bool → Result TrafficError CanFrameCost
unfolding classical_cost fd_cost
estimate_can_frame_cost mode payload_length arbitration_rate data_rate bit_rate_switch =
    throw_if ((arbitration_rate == 0) || (data_rate == 0)) invalid_configuration >> elim mode [
      | classical ↦ classical_cost payload_length arbitration_rate
      | can_fd ↦ fd_cost payload_length arbitration_rate data_rate bit_rate_switch
    ]

-- The tests are those of the `switch`, in its order.
unfoldable pub classify_traffic : Packet → TrafficClass
classify_traffic packet =
    let command = packet.header.command in
    if (command == Command.discovery_request)
      || (command == Command.discovery_response)
      || (command == Command.node_assign)
      || (command == Command.heartbeat)
    then system
    else (if (command == Command.uart_write) || (command == Command.uart_rx_event)
        then streaming
        else (if (command == Command.motion_enqueue) || (command == Command.motion_status)
            then motion
            else (if command == Command.motion_abort
                then safety
                else (if (command == Command.bootloader_enter)
                      || (command == Command.bootloader_enter_usb)
                    then bulk
                    else interactive))))
