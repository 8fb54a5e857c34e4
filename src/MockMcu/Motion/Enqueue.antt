-- ===== src/MockMcu/Motion/Enqueue.antt =====
-- mock_mcu/src/motion_executor.cpp: how the motion executor is constructed and takes segments. A call that throws
-- returns its error beside the executor that it leaves. The counters are 64 bits wide, the sequence
-- numbers 32.
use remote_bsp.Prelude.{
  is_empty, ℕ, ◌+◌, ◌-◌, ◌*◌, ◌/◌, ◌%◌, ◌^◌, max, ltb, leb, ◌==◌, not, ◌&&◌, ◌||◌, Bool, true,
  false, Option, none, some, if◌then◌else◌, List, [], ◌∷◌, ◌++◌, length, Result, ok, err, throw_if,
  ◌>>◌, ◌>>=◌,
}
use remote_bsp.Protocol.Motion.Segment.{maximum_motion_axes}
use remote_bsp.MockMcu.Motion.{
  MotionAxisConfig, MotionAxisMove, MotionSegment, MotionMetrics, MotionError, AxisRuntime,
  MoveRuntime, SegmentRuntime, MotionExecutor, idle, armed, no_fault, invalid_configuration,
  invalid_segment, invalid_axis, duplicate_axis, sequence_mismatch, segment_late, segment_overlap,
  queue_full, rate_exceeded, fault_latched, time_went_backwards, uint64_max, u64, has_fault,
  find_axis,
}
use remote_bsp.Prelude.Int.{pos}
use remote_bsp.MockMcu.Motion.Timing.{absolute_steps, rate_allows, nanoseconds_per_second}

abbrev pub new_metrics : MotionMetrics
new_metrics = record {
  accepted_segments = 0;
  rejected_segments = 0;
  completed_segments = 0;
  emitted_edges = 0;
  emitted_steps = 0;
  safety_stops = 0;
  limit_stops = 0;
  queue_underruns = 0;
  maximum_queue_depth = 0;
}

abbrev pub new_axis : MotionAxisConfig → AxisRuntime
new_axis config = record {
  config = config;
  enabled = false;
  direction_positive = false;
  step_level = false;
  position_steps = pos 0;
  emitted_steps = 0;
}

abbrev pub is_there {ℓ} : {A : Type ℓ} → Option A → Bool
is_there none = false
is_there (some a) = true

-- The loop of the constructor.
unfoldable pub new_axes :
    List AxisRuntime → List MotionAxisConfig → Result MotionError (List AxisRuntime)
unfolding find_axis
new_axes axes [] = ok axes
new_axes axes (config ∷ configs) = do
  throw_if
      ((config.resource_id == 0)
        || (config.maximum_step_rate_hz == 0)
        || (config.step_pulse_width_ns == 0)
        || (config.minimum_step_low_ns == 0)
        || (config.direction_setup_ns == 0)
        || is_there (find_axis config.resource_id axes))
      invalid_configuration
  throw_if
      (ltb nanoseconds_per_second (
        u64 (
          config.maximum_step_rate_hz * (config.step_pulse_width_ns + config.minimum_step_low_ns))))
      invalid_configuration
  new_axes (axes ++ (new_axis config ∷ [])) configs

unfoldable pub new_executor : List MotionAxisConfig → ℕ → ℕ → Result MotionError MotionExecutor
unfolding new_axes
new_executor configs queue_capacity minimum_lead_time_ns = do
  throw_if
      (is_empty configs
        || ltb maximum_motion_axes (length configs)
        || (queue_capacity == 0)
        || ltb 1024 queue_capacity
        || (minimum_lead_time_ns == 0))
      invalid_configuration
  axes ← new_axes [] configs
  ok (record {
    axis_configs = configs;
    axes = axes;
    queue = [];
    queue_capacity = queue_capacity;
    minimum_lead_time_ns = minimum_lead_time_ns;
    now_ns = 0;
    next_available_time_ns = 0;
    last_accepted_sequence = 0;
    last_completed_sequence = 0;
    state = idle;
    fault = no_fault;
    metrics = new_metrics;
  })

-- `!queue_.empty() && queue_.back().segment.final_segment`
unfoldable pub ends_final : List SegmentRuntime → Bool
ends_final [] = false
ends_final (s ∷ segments) =
    let rest = ends_final segments in if is_empty segments then s.segment.final_segment else rest

-- `std::set::insert`, whether the id was there
unfoldable pub is_seen : ℕ → List ℕ → Bool
is_seen k [] = false
is_seen k (j ∷ ids) = (j == k) || is_seen k ids

-- Whether the steps of a move are too fast for its axis.
unfoldable pub exceeds_rate : MotionAxisConfig → ℕ → ℕ → Bool
unfolding rate_allows
exceeds_rate config duration_ns count =
    let available_after_setup =
      if ltb config.direction_setup_ns duration_ns
      then duration_ns - config.direction_setup_ns
      else 0 in
    let minimum_period = config.step_pulse_width_ns + config.minimum_step_low_ns in
    ltb available_after_setup config.step_pulse_width_ns
    || ltb (available_after_setup / minimum_period + 1) count
    || not (rate_allows count duration_ns config.maximum_step_rate_hz)

unfoldable pub plan_move :
    Option AxisRuntime → MotionSegment → MotionAxisMove → Result MotionError MoveRuntime
unfolding absolute_steps exceeds_rate
plan_move none segment move = err invalid_axis
plan_move (some axis) segment move =
    let count = absolute_steps move.steps in
    throw_if (not (count == 0) && exceeds_rate axis.config segment.duration_ns count) rate_exceeded
    >> ok (record {
      move = move;
      step_count = count;
      rises_emitted = 0;
      falls_emitted = 0;
      controls_emitted = false;
    })

-- The loop over the moves of a segment.
unfoldable pub plan_moves :
    List AxisRuntime
    → MotionSegment
    → List ℕ
    → List MotionAxisMove
    → Result MotionError (List MoveRuntime)
unfolding is_seen find_axis plan_move
plan_moves axes segment seen_axes [] = ok []
plan_moves axes segment seen_axes (move ∷ moves) = do
  throw_if (is_seen move.resource_id seen_axes) duplicate_axis
  planned ← plan_move (find_axis move.resource_id axes) segment move
  later ← plan_moves axes segment (move.resource_id ∷ seen_axes) moves
  ok (planned ∷ later)

-- The start of a segment: the one that it names, or the earliest that is free.
unfoldable pub start_time : MotionExecutor → MotionSegment → ℕ → Result MotionError ℕ
start_time m segment now_ns =
    if segment.start_time_ns == 0
    then ok (
        max
          (if ltb (uint64_max - m.minimum_lead_time_ns) now_ns
            then uint64_max
            else now_ns + m.minimum_lead_time_ns)
          m.next_available_time_ns)
    else (if ltb segment.start_time_ns now_ns
          || ltb (segment.start_time_ns - now_ns) m.minimum_lead_time_ns
        then err segment_late
        else ok segment.start_time_ns)

-- The tests of `enqueue`: the segment with its start, and its moves.
unfoldable pub plan_segment : MotionExecutor → MotionSegment → ℕ → Result MotionError SegmentRuntime
unfolding ends_final start_time plan_moves
plan_segment m segment now_ns = do
  throw_if (has_fault m.fault) fault_latched
  throw_if (ltb now_ns m.now_ns) time_went_backwards
  throw_if (leb m.queue_capacity (length m.queue)) queue_full
  throw_if (ends_final m.queue) invalid_segment
  throw_if
      ((segment.sequence == 0) || not (segment.sequence == (m.last_accepted_sequence + 1) % 2 ^ 32))
      sequence_mismatch
  throw_if ((segment.duration_ns == 0) || not (length segment.axes == length m.axes))
      invalid_segment
  start ← start_time m segment now_ns
  throw_if (not (is_empty m.queue) && not (start == m.next_available_time_ns)) segment_overlap
  throw_if (ltb (uint64_max - segment.duration_ns) start) invalid_segment
  let planned = record segment { start_time_ns = start }
  moves ← plan_moves m.axes planned [] planned.axes
  ok (record { segment = planned; moves = moves })

-- `reject`, which every error of `enqueue` goes through.
unfoldable pub reject {ℓ} :
    {A : Type ℓ} → MotionError → MotionExecutor → Result MotionError A × MotionExecutor
reject code m = (
  err code,
  record m {
    metrics = record (m.metrics) { rejected_segments = u64 (m.metrics.rejected_segments + 1) };
  },
)

unfoldable pub enqueue :
    MotionExecutor → MotionSegment → ℕ → Result MotionError MotionSegment × MotionExecutor
unfolding plan_segment reject
enqueue m segment now_ns = elim (plan_segment m segment now_ns) [
  | err code ↦ reject code m
  | ok runtime ↦ (
    ok runtime.segment,
    record m {
      next_available_time_ns = u64 (runtime.segment.start_time_ns + runtime.segment.duration_ns);
      last_accepted_sequence = runtime.segment.sequence;
      queue = m.queue ++ (runtime ∷ []);
      state = armed;
      metrics = record (m.metrics) {
        accepted_segments = u64 (m.metrics.accepted_segments + 1);
        maximum_queue_depth = max m.metrics.maximum_queue_depth (length m.queue + 1);
      };
    },
  )
]
