-- ===== src/MockMcu/Motion/Examples.antt =====
-- Two axes of the simulated motion executor, at work and stopped.
use remote_bsp.Prelude.{ℕ, ◌≡◌, ◌*◌, ◌/◌, ◌^◌, leb, refl, true, false, List, [], ◌∷◌, ok, arith}
use remote_bsp.Prelude.Int.{pos, negsuc}
use remote_bsp.MockMcu.Motion.{
  MotionAxisConfig, MotionSegment, MotionExecutor, MotionEdge, faulted, aborted, idle, no_fault,
}
use remote_bsp.MockMcu.Motion.Timing.{
  interpolate_offset, rate_allows, nanoseconds_per_second, interpolate_offset-exact,
  rate_allows-exact,
}
use remote_bsp.MockMcu.Motion.Edges.{rise_time}
use remote_bsp.MockMcu.Motion.Enqueue.{exceeds_rate, new_axis, new_metrics, enqueue}
use remote_bsp.MockMcu.Motion.Executor.{abort, advance_to}
use remote_bsp.MockMcu.Motion.Executor.Safe.{IsSafe, abort-IsSafe}

interpolate_offset-exact_example : interpolate_offset (2 ^ 63) 4 5 ≡ 2 ^ 63 * 4 / 5
interpolate_offset-exact_example =
    interpolate_offset-exact (2 ^ 63) 4 5 (omega arith) (omega arith) (omega arith) (omega arith)

rate_allows-exact_example :
    rate_allows 3000 1500000000 2000 ≡ leb (3000 * nanoseconds_per_second) (1500000000 * 2000)
rate_allows-exact_example =
    rate_allows-exact 3000 1500000000 2000 (omega arith) (omega arith) (omega arith) (omega arith)

abbrev axis : ℕ → MotionAxisConfig
axis resource_id = record {
  resource_id = resource_id;
  maximum_step_rate_hz = 500000;
  step_pulse_width_ns = 1000;
  minimum_step_low_ns = 1000;
  direction_setup_ns = 2000;
}

abbrev segment : MotionSegment
segment = record {
  sequence = 1;
  start_time_ns = 0;
  duration_ns = 100000;
  final_segment = true;
  axes =
      record { resource_id = 1; steps = pos 5 } ∷ record { resource_id = 2; steps = negsuc 2 } ∷ [];
}

abbrev resting : MotionExecutor
resting = record {
  axis_configs = axis 1 ∷ axis 2 ∷ [];
  axes = new_axis (axis 1) ∷ new_axis (axis 2) ∷ [];
  queue = [];
  queue_capacity = 4;
  minimum_lead_time_ns = 1000;
  now_ns = 0;
  next_available_time_ns = 0;
  last_accepted_sequence = 0;
  last_completed_sequence = 0;
  state = idle;
  fault = no_fault;
  metrics = new_metrics;
}

-- The executor in the middle of the segment.
abbrev moving : MotionExecutor
moving = (advance_to (enqueue resting segment 0).1 40000).1

abort-IsSafe_example :
    ((output : List MotionEdge) × ((abort moving 50000 aborted).0 ≡ ok output))
    × IsSafe (abort moving 50000 aborted).1
    × ((abort moving 50000 aborted).1.fault ≡ aborted)
    × ((abort moving 50000 aborted).1.state ≡ faulted)
unfolding advance_to enqueue
abort-IsSafe_example = abort-IsSafe moving 50000 aborted (omega arith) refl refl

-- Two steps that `exceeds_rate` lets pass, of an axis whose step line must be high for 1000 ns and
-- then low for 1000 ns: the second rises when the first falls.
close_steps :
    (exceeds_rate (axis 1) 4000 2 ≡ false)
    × (rise_time 2000 1000 2 0 ≡ 2000)
    × (rise_time 2000 1000 2 1 ≡ 3000)
unfolding exceeds_rate rise_time interpolate_offset rate_allows
close_steps = (refl, refl, refl)
