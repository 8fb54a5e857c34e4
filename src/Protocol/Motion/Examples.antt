-- ===== src/Protocol/Motion/Examples.antt =====
-- A segment, its acceptance and a status of one axis.
use remote_bsp.Prelude.{◌≡◌, [], ◌∷◌, length, ok, arith, true, false}
use remote_bsp.Prelude.Int.{negsuc}
use remote_bsp.Bytes.{Bytes}
use remote_bsp.Protocol.Motion.Segment.{
  MotionAxisMovePayload, MotionSegmentPayload, MotionAcceptancePayload, encode_motion_segment,
  decode_motion_segment,
}
use remote_bsp.Protocol.Motion.Status.{
  MotionAxisStatusPayload, MotionMetricsPayload, MotionStatusPayload, encode_motion_status,
  decode_motion_status,
}
use remote_bsp.Protocol.Motion.RoundTrip.{decode-encode_motion_segment}
use remote_bsp.Protocol.Motion.StatusRoundTrip.{decode-encode_motion_status}

abbrev back_ten : MotionAxisMovePayload
back_ten = record { resource_id = 3; steps = negsuc 9 }

abbrev one_move : MotionSegmentPayload
one_move = record {
  sequence = 1;
  start_time_ns = 500;
  duration_ns = 1000;
  final_segment = true;
  axes = back_ten ∷ [];
}

decode-encode_motion_segment_example :
    (bytes : Bytes) × (encode_motion_segment one_move ≡ ok bytes)
    × (length bytes ≡ 32)
    × (decode_motion_segment bytes ≡ ok one_move)
decode-encode_motion_segment_example =
    decode-encode_motion_segment one_move
      (record {
        numbered = λ e. absurd (omega (arith, e));
        sequence = omega arith;
        start_time_ns = omega arith;
        lasting = λ e. absurd (omega (arith, e));
        duration_ns = omega arith;
        some_axis = omega arith;
        few_axes = omega arith;
      })
      (
        record {
          named = λ e. absurd (omega (arith, e));
          resource_id = omega arith;
          steps = omega arith;
        },
        tt,
      )

abbrev accepted : MotionAcceptancePayload
accepted = record { sequence = 1; start_time_ns = 500; duration_ns = 1000; final_segment = true }

abbrev axis_three : MotionAxisStatusPayload
axis_three = record {
  resource_id = 3;
  enabled = true;
  direction_positive = false;
  step_level = true;
  position_steps = negsuc 9;
  emitted_steps = 10;
}

abbrev metrics : MotionMetricsPayload
metrics = record {
  accepted_segments = 1;
  rejected_segments = 0;
  completed_segments = 1;
  emitted_edges = 20;
  emitted_steps = 10;
  safety_stops = 0;
  limit_stops = 0;
  queue_underruns = 0;
  maximum_queue_depth = 1;
}

abbrev idle_status : MotionStatusPayload
idle_status = record {
  state = 0;
  fault = 0;
  node_time_ns = 2000;
  queue_depth = 0;
  queue_capacity = 16;
  last_accepted_sequence = 1;
  last_completed_sequence = 1;
  metrics = metrics;
  axes = axis_three ∷ [];
}

decode-encode_motion_status_example :
    (bytes : Bytes) × (encode_motion_status idle_status ≡ ok bytes)
    × (length bytes ≡ 116)
    × (decode_motion_status bytes ≡ ok idle_status)
decode-encode_motion_status_example =
    decode-encode_motion_status idle_status
      (record {
        state = omega arith;
        fault = omega arith;
        node_time_ns = omega arith;
        queue_depth = omega arith;
        queue_capacity = omega arith;
        last_accepted_sequence = omega arith;
        last_completed_sequence = omega arith;
        metrics = record {
          accepted_segments = omega arith;
          rejected_segments = omega arith;
          completed_segments = omega arith;
          emitted_edges = omega arith;
          emitted_steps = omega arith;
          safety_stops = omega arith;
          limit_stops = omega arith;
          queue_underruns = omega arith;
          maximum_queue_depth = omega arith;
        };
        maximum_queue_depth = omega arith;
        some_axis = omega arith;
        few_axes = omega arith;
      })
      (
        record {
          named = λ e. absurd (omega (arith, e));
          resource_id = omega arith;
          position_steps = omega arith;
          emitted_steps = omega arith;
        },
        tt,
      )
