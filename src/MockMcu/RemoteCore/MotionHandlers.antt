-- ===== src/MockMcu/RemoteCore/MotionHandlers.antt =====
-- mock_mcu/src/remote_core.cpp: the handlers of the commands on motion.
use remote_bsp.Prelude.{
  ℕ, ◌==◌, not, ◌||◌, Bool, true, false, some, if◌then◌else◌, List, [], ◌∷◌, is_empty, Result, ok,
  err, ◌>>◌, ◌>>=◌,
}
use remote_bsp.Bytes.{u16}
use remote_bsp.Protocol.Packet.{Packet}
use remote_bsp.Protocol.Motion.Segment.{
  MotionAxisMovePayload, MotionSegmentPayload, decode_motion_segment, encode_motion_acceptance,
}
use remote_bsp.Protocol.Motion.Status.{
  MotionAxisStatusPayload, MotionStatusPayload, encode_motion_status,
}
use remote_bsp.MockMcu.Motion.{
  MotionAxisMove, MotionSegment, MotionExecutor, MotionState, MotionFault, MotionAxisStatus,
  MotionStatus, MotionError, idle, armed, running, faulted, no_fault, aborted, limit_triggered,
  queue_underrun, invalid_configuration, invalid_segment, invalid_axis, duplicate_axis,
  sequence_mismatch, segment_late, segment_overlap, queue_full, rate_exceeded, fault_latched,
  time_went_backwards,
}
use remote_bsp.MockMcu.Motion.Enqueue.{enqueue}
use remote_bsp.MockMcu.Motion.Executor.{abort, clear_fault, status}
use remote_bsp.MockMcu.RemoteCore.{
  RemoteCore, Outcome, Exit, motion_failure, respond, respond_with, refuse_if, require, catch_with,
  pass_on, find_resource, StatusCode, capability_motion, all_well, invalid_payload,
  object_not_found, access_denied, resource_exhausted, resource_failed, resource_busy,
}
use remote_bsp.MockMcu.RemoteCore.ResourceHandlers.{is_axis}
use remote_bsp.MockMcu.RemoteCore.GpioHandlers.{require_bsp, needs_lease}

-- The loop over the moves: each names an axis that the session may move.
unfoldable pub check_moves : RemoteCore → ℕ → List MotionAxisMovePayload → Result Exit (Unit {0})
unfolding needs_lease
check_moves core session_id [] = ok tt
check_moves core session_id (axis ∷ axes) = do
  resource ← require (find_resource core axis.resource_id) object_not_found
  refuse_if (not (is_axis resource)) object_not_found
  refuse_if (needs_lease core axis.resource_id session_id) access_denied
  check_moves core session_id axes

abbrev pub to_moves : List MotionAxisMovePayload → List MotionAxisMove
to_moves [] = []
to_moves (axis ∷ axes) =
    record { resource_id = axis.resource_id; steps = axis.steps } ∷ to_moves axes

abbrev pub to_segment : MotionSegmentPayload → MotionSegment
to_segment decoded = record {
  sequence = decoded.sequence;
  start_time_ns = decoded.start_time_ns;
  duration_ns = decoded.duration_ns;
  final_segment = decoded.final_segment;
  axes = to_moves decoded.axes;
}

unfoldable pub enqueue_error_status : MotionError → StatusCode
enqueue_error_status queue_full = resource_exhausted
enqueue_error_status fault_latched = resource_failed
enqueue_error_status invalid_configuration = invalid_payload
enqueue_error_status invalid_segment = invalid_payload
enqueue_error_status invalid_axis = invalid_payload
enqueue_error_status duplicate_axis = invalid_payload
enqueue_error_status sequence_mismatch = invalid_payload
enqueue_error_status segment_late = invalid_payload
enqueue_error_status segment_overlap = invalid_payload
enqueue_error_status rate_exceeded = invalid_payload
enqueue_error_status time_went_backwards = invalid_payload

unfoldable pub answer_enqueue :
    RemoteCore
    → Packet
    → MotionSegmentPayload
    → Result MotionError MotionSegment × MotionExecutor
    → Outcome
unfolding enqueue_error_status
answer_enqueue core request decoded (err e, motion) =
    respond request (enqueue_error_status e) (record core { motion = some motion })
answer_enqueue core request decoded (ok accepted, motion) = do
  encoded ←
      pass_on
        (encode_motion_acceptance (record {
          sequence = decoded.sequence;
          start_time_ns = accepted.start_time_ns;
          duration_ns = decoded.duration_ns;
          final_segment = decoded.final_segment;
        }))
        motion_failure
  respond_with request encoded (record core { motion = some motion })

unfoldable pub handle_motion_enqueue : RemoteCore → Packet → Outcome
unfolding check_moves answer_enqueue
handle_motion_enqueue core request = do
  motion ← require_bsp core core.motion capability_motion
  refuse_if (not (request.header.object_id == 0)) invalid_payload
  decoded ← catch_with (decode_motion_segment request.payload) invalid_payload
  check_moves core request.header.session_id decoded.axes
  answer_enqueue core request decoded (enqueue motion (to_segment decoded) motion.now_ns)

abbrev pub state_code : MotionState → ℕ
state_code idle = 0
state_code armed = 1
state_code running = 2
state_code faulted = 3

abbrev pub fault_code : MotionFault → ℕ
fault_code no_fault = 0
fault_code aborted = 1
fault_code limit_triggered = 2
fault_code queue_underrun = 3

abbrev pub to_axis_statuses : List MotionAxisStatus → List MotionAxisStatusPayload
to_axis_statuses [] = []
to_axis_statuses (axis ∷ axes) =
    record {
      resource_id = axis.resource_id;
      enabled = axis.enabled;
      direction_positive = axis.direction_positive;
      step_level = axis.step_level;
      position_steps = axis.position_steps;
      emitted_steps = axis.emitted_steps;
    }
    ∷ to_axis_statuses axes

unfoldable pub to_motion_status : MotionStatus → MotionStatusPayload
to_motion_status source = record {
  state = state_code source.state;
  fault = fault_code source.fault;
  node_time_ns = source.node_time_ns;
  queue_depth = u16 source.queue_depth;
  queue_capacity = u16 source.queue_capacity;
  last_accepted_sequence = source.last_accepted_sequence;
  last_completed_sequence = source.last_completed_sequence;
  metrics = record {
    accepted_segments = source.metrics.accepted_segments;
    rejected_segments = source.metrics.rejected_segments;
    completed_segments = source.metrics.completed_segments;
    emitted_edges = source.metrics.emitted_edges;
    emitted_steps = source.metrics.emitted_steps;
    safety_stops = source.metrics.safety_stops;
    limit_stops = source.metrics.limit_stops;
    queue_underruns = source.metrics.queue_underruns;
    maximum_queue_depth = u16 source.metrics.maximum_queue_depth;
  };
  axes = to_axis_statuses source.axes;
}

unfoldable pub handle_motion_status : RemoteCore → Packet → Outcome
unfolding to_motion_status
handle_motion_status core request = do
  motion ← require_bsp core core.motion capability_motion
  refuse_if (not (request.header.object_id == 0) || not (is_empty request.payload)) invalid_payload
  encoded ← pass_on (encode_motion_status (to_motion_status (status motion))) motion_failure
  respond_with request encoded core

abbrev pub is_latched : MotionError → Bool
is_latched e = elim e [ fault_latched ↦ true | _ ↦ false ]

unfoldable pub handle_motion_abort : RemoteCore → Packet → Outcome
handle_motion_abort core request = do
  motion ← require_bsp core core.motion capability_motion
  refuse_if (not (request.header.object_id == 0) || not (is_empty request.payload)) invalid_payload
  let stopped = abort motion motion.now_ns aborted
  let after = record core { motion = some stopped.1 }
  elim stopped.0 [
    | err e ↦ respond request (if is_latched e then resource_failed else invalid_payload) after
    | ok edges ↦ respond request all_well after
  ]

unfoldable pub handle_motion_clear_fault : RemoteCore → Packet → Outcome
handle_motion_clear_fault core request = do
  motion ← require_bsp core core.motion capability_motion
  refuse_if (not (request.header.object_id == 0) || not (is_empty request.payload)) invalid_payload
  let cleared = clear_fault motion
  let after = record core { motion = some cleared.1 }
  elim cleared.0 [
    | err e ↦ respond request resource_busy after
    | ok u ↦ respond request all_well after
  ]
