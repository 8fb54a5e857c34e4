-- ===== src/MockMcu/Motion/Executor.antt =====
-- mock_mcu/src/motion_executor.cpp: how the motion executor runs its queue and stops. A call that throws
-- returns its error beside the executor that it leaves. The counters are 64 bits wide, the sequence
-- numbers 32.
pub mod Safe
use remote_bsp.Prelude.{
  is_empty, ℕ, ◌+◌, ◌-◌, ◌*◌, ◌/◌, ◌%◌, ◌^◌, max, min, ltb, leb, ◌==◌, not, ◌&&◌, ◌||◌, Bool, true,
  false, Option, none, some, if◌then◌else◌, List, [], ◌∷◌, ◌++◌, length, Result, ok, err, throw_if,
  ◌>>◌, ◌>>=◌,
}
use remote_bsp.Protocol.Motion.Segment.{maximum_motion_axes}
use remote_bsp.MockMcu.Motion.{
  MotionAxisConfig, MotionAxisMove, MotionSegment, MotionEdge, MotionState, MotionFault,
  MotionAxisStatus, MotionMetrics, MotionStatus, MotionError, AxisRuntime, MoveRuntime,
  SegmentRuntime, MotionExecutor, idle, armed, running, faulted, no_fault, aborted, limit_triggered,
  queue_underrun, invalid_configuration, invalid_segment, invalid_axis, duplicate_axis,
  sequence_mismatch, segment_late, segment_overlap, queue_full, rate_exceeded, fault_latched,
  time_went_backwards, uint64_max, u64, is_faulted, has_fault, find_axis,
}
use remote_bsp.Prelude.Int.{pos}
use remote_bsp.MockMcu.Motion.Timing.{absolute_steps, rate_allows, nanoseconds_per_second}
use remote_bsp.MockMcu.Motion.Enqueue.{reject}
use remote_bsp.MockMcu.Motion.Edges.{
  collect_moves, sort_edges, apply_edges, count_steps, safe_edges,
}

abbrev pub end_time : MotionSegment → ℕ
end_time segment = u64 (segment.start_time_ns + segment.duration_ns)

-- `apply_edges(edges); metrics_.emitted_edges += edges.size();`
unfoldable pub emit_edges : List MotionEdge → MotionExecutor → MotionExecutor
unfolding apply_edges count_steps
emit_edges edges m = record m {
  axes = apply_edges edges m.axes;
  metrics = record (m.metrics) {
    emitted_steps = u64 (m.metrics.emitted_steps + count_steps edges);
    emitted_edges = u64 (m.metrics.emitted_edges + length edges);
  };
}

-- The edges of a segment up to a time; the segment stands in the queue with what it has emitted.
unfoldable pub collect_segment_edges :
    MotionExecutor → SegmentRuntime → ℕ → MotionExecutor × SegmentRuntime × List MotionEdge
unfolding collect_moves sort_edges emit_edges
collect_segment_edges m runtime until_ns =
    let end = end_time runtime.segment in
    let (moves, collected) =
      collect_moves m.axes runtime.segment.start_time_ns end (min until_ns end) runtime.moves in
    let edges = sort_edges collected in
    (emit_edges edges m, record runtime { moves = moves }, edges)

-- The state behind `enter_safe_state`, whose edges are `safe_edges`.
unfoldable pub safe_state : ℕ → MotionFault → MotionExecutor → MotionExecutor
safe_state at_ns fault m = elim (has_fault fault) [
  | false ↦ record m { queue = []; next_available_time_ns = at_ns; state = idle; fault = no_fault }
  | true ↦ record m {
    queue = [];
    next_available_time_ns = at_ns;
    state = faulted;
    fault = fault;
    metrics = record (m.metrics) { safety_stops = u64 (m.metrics.safety_stops + 1) };
  }
]

-- `enter_safe_state`, and what its callers do with its edges.
unfoldable pub stop_safely : ℕ → MotionFault → MotionExecutor → MotionExecutor × List MotionEdge
unfolding safe_state safe_edges sort_edges emit_edges
stop_safely at_ns fault m =
    let safe = sort_edges (safe_edges at_ns m.axes) in
    (emit_edges safe (safe_state at_ns fault m), safe)

-- The executor behind a segment whose end has come.
unfoldable pub complete_segment :
    MotionExecutor → MotionSegment → List SegmentRuntime → MotionExecutor
complete_segment m segment rest = record m {
  queue = rest;
  last_completed_sequence = segment.sequence;
  metrics = record (m.metrics) {
    completed_segments = u64 (m.metrics.completed_segments + 1);
    queue_underruns =
        if not segment.final_segment && is_empty rest
        then u64 (m.metrics.queue_underruns + 1)
        else m.metrics.queue_underruns;
  };
}

-- The loop of `advance_to`, on the queue.
unfoldable pub run_queue :
    ℕ → List SegmentRuntime → MotionExecutor → MotionExecutor × List MotionEdge
unfolding collect_segment_edges stop_safely complete_segment
run_queue now_ns [] m = (m, [])
run_queue now_ns (current ∷ rest) m =
    let (collected, runtime, edges) =
      collect_segment_edges (record m { state = running }) current now_ns in
    let completed = complete_segment collected current.segment rest in
    let finished = stop_safely (end_time current.segment) no_fault completed in
    let starved = stop_safely (end_time current.segment) queue_underrun completed in
    let next = run_queue now_ns rest completed in
    if ltb now_ns current.segment.start_time_ns
    then (m, [])
    else (if ltb now_ns (end_time current.segment)
        then (record collected { queue = runtime ∷ rest }, edges)
        else (if current.segment.final_segment
            then (finished.0, edges ++ finished.1)
            else (if is_empty rest
                then (starved.0, edges ++ starved.1)
                else (next.0, edges ++ next.1))))

-- The end of `advance_to`.
unfoldable pub settle : ℕ → MotionExecutor → MotionExecutor
settle now_ns m = record m {
  now_ns = now_ns;
  state =
      if is_empty m.queue && not (has_fault m.fault) && not (is_faulted m.state)
      then idle
      else m.state;
}

unfoldable pub advance_to :
    MotionExecutor → ℕ → Result MotionError (List MotionEdge) × MotionExecutor
unfolding run_queue sort_edges settle
advance_to m now_ns =
    let (advanced, output) = run_queue now_ns m.queue m in
    if ltb now_ns m.now_ns
    then (err time_went_backwards, m)
    else (ok (sort_edges output), settle now_ns advanced)

abbrev pub is_stop_reason : MotionFault → Bool
is_stop_reason no_fault = false
is_stop_reason queue_underrun = false
is_stop_reason aborted = true
is_stop_reason limit_triggered = true

-- The outcome of `abort` by that of its `advance_to`, and by the stop behind it.
unfoldable pub abort_with :
    MotionExecutor
    → MotionFault
    → Result MotionError (List MotionEdge) × MotionExecutor
    → MotionExecutor × List MotionEdge
    → Result MotionError (List MotionEdge) × MotionExecutor
unfolding sort_edges
abort_with m fault (advancing, advanced) (stopped, safe) =
    if not (is_stop_reason fault)
    then (err invalid_segment, m)
    else (if has_fault m.fault then (err fault_latched, m) else elim advancing [
      | err code ↦ (err code, advanced)
      | ok output ↦ (ok (sort_edges (output ++ safe)), stopped)
    ])

unfoldable pub abort :
    MotionExecutor → ℕ → MotionFault → Result MotionError (List MotionEdge) × MotionExecutor
unfolding advance_to stop_safely abort_with
abort m now_ns fault =
    let advanced = advance_to m now_ns in
    abort_with m fault advanced (stop_safely now_ns fault advanced.1)

unfoldable pub trigger_limit :
    MotionExecutor → ℕ → ℕ → Result MotionError (List MotionEdge) × MotionExecutor
unfolding find_axis abort reject
trigger_limit m axis_resource_id now_ns = elim (find_axis axis_resource_id m.axes) [
  | none ↦ reject invalid_axis m
  | some axis ↦
      abort
        (record m {
          metrics = record (m.metrics) { limit_stops = u64 (m.metrics.limit_stops + 1) };
        })
        now_ns limit_triggered
]

unfoldable pub clear_fault : MotionExecutor → Result MotionError (Unit {0}) × MotionExecutor
clear_fault m =
    if not (is_empty m.queue)
    then (err fault_latched, m)
    else (ok tt, record m { fault = no_fault; state = idle; next_available_time_ns = m.now_ns })

unfoldable pub axis_statuses : List AxisRuntime → List MotionAxisStatus
axis_statuses [] = []
axis_statuses (a ∷ axes) =
    record {
      resource_id = a.config.resource_id;
      enabled = a.enabled;
      direction_positive = a.direction_positive;
      step_level = a.step_level;
      position_steps = a.position_steps;
      emitted_steps = a.emitted_steps;
    }
    ∷ axis_statuses axes

unfoldable pub status : MotionExecutor → MotionStatus
unfolding axis_statuses
status m = record {
  state = m.state;
  fault = m.fault;
  node_time_ns = m.now_ns;
  queue_depth = length m.queue;
  queue_capacity = m.queue_capacity;
  last_accepted_sequence = m.last_accepted_sequence;
  last_completed_sequence = m.last_completed_sequence;
  axes = axis_statuses m.axes;
  metrics = m.metrics;
}
