-- ===== src/Protocol/Motion/Status.antt =====
-- The motion status, of protocol/src/motion.cpp.
use remote_bsp.Prelude.{
  ℕ, zero, suc, ◌+◌, ◌*◌, bit_and, bit_or, ltb, ◌==◌, not, ◌||◌, Bool, if◌then◌else◌, List, [], ◌∷◌,
  ◌++◌, length, drop, Result, ok, throw_if, ◌>>◌, ◌>>=◌,
}
use remote_bsp.Prelude.Int.{ℤ}
use remote_bsp.Bytes.{
  Bytes, u8, byte_at, append_u16, append_u32, append_u64, read_u16, read_u32, read_u64,
}
use remote_bsp.Protocol.Motion.Signed.{to_u64, decode_i64}
use remote_bsp.Protocol.Motion.Segment.{
  MotionPayloadError, invalid_length, invalid_value, validate_axis_count,
}

abbrev pub status_header_size : ℕ
status_header_size = 92

abbrev pub axis_status_size : ℕ
axis_status_size = 24

abbrev pub state_faulted : ℕ
state_faulted = 3

abbrev pub fault_queue_underrun : ℕ
fault_queue_underrun = 3

pub record MotionAxisStatusPayload : Type 0 where
  pub resource_id : ℕ
  pub enabled : Bool
  pub direction_positive : Bool
  pub step_level : Bool
  pub position_steps : ℤ
  pub emitted_steps : ℕ

pub record MotionMetricsPayload : Type 0 where
  pub accepted_segments : ℕ
  pub rejected_segments : ℕ
  pub completed_segments : ℕ
  pub emitted_edges : ℕ
  pub emitted_steps : ℕ
  pub safety_stops : ℕ
  pub limit_stops : ℕ
  pub queue_underruns : ℕ
  pub maximum_queue_depth : ℕ

pub record MotionStatusPayload : Type 0 where
  pub state : ℕ
  pub fault : ℕ
  pub node_time_ns : ℕ
  pub queue_depth : ℕ
  pub queue_capacity : ℕ
  pub last_accepted_sequence : ℕ
  pub last_completed_sequence : ℕ
  pub metrics : MotionMetricsPayload
  pub axes : List MotionAxisStatusPayload

unfoldable pub axis_flags : MotionAxisStatusPayload → ℕ
axis_flags axis = u8 (
    bit_or (bit_or (if axis.enabled then 0x01 else 0) (if axis.direction_positive then 0x02 else 0))
      (if axis.step_level then 0x04 else 0))

-- The loop over the axes, with what was written before it.
unfoldable pub append_axes : Bytes → List MotionAxisStatusPayload → Result MotionPayloadError Bytes
append_axes output [] = ok output
append_axes output (axis ∷ axes) =
    let flagged = append_u32 output axis.resource_id ++ (axis_flags axis ∷ []) in
    let padded = flagged ++ (0 ∷ 0 ∷ 0 ∷ []) in
    throw_if (axis.resource_id == 0) invalid_value
    >> append_axes (append_u64 (append_u64 padded (to_u64 axis.position_steps)) axis.emitted_steps)
        axes

unfoldable pub encode_motion_status : MotionStatusPayload → Result MotionPayloadError Bytes
unfolding validate_axis_count append_u16 append_u32 append_u64
encode_motion_status s = do
  validate_axis_count (length s.axes)
  throw_if
      (ltb s.queue_capacity s.queue_depth || ltb s.queue_capacity s.metrics.maximum_queue_depth)
      invalid_value
  let head = s.state ∷ s.fault ∷ u8 (length s.axes) ∷ 0 ∷ []
  let queue =
      append_u16 (append_u16 (append_u64 head s.node_time_ns) s.queue_depth) s.queue_capacity
  let sequences = append_u32 (append_u32 queue s.last_accepted_sequence) s.last_completed_sequence
  let m = s.metrics
  let accepted = append_u64 (append_u64 sequences m.accepted_segments) m.rejected_segments
  let emitted = append_u64 (append_u64 accepted m.completed_segments) m.emitted_edges
  let stopped = append_u64 (append_u64 emitted m.emitted_steps) m.safety_stops
  let limited = append_u64 (append_u64 stopped m.limit_stops) m.queue_underruns
  append_axes (append_u16 (append_u16 limited m.maximum_queue_depth) 0) s.axes

-- The axis that stands at an entry.
unfoldable pub read_axis : Bytes → MotionAxisStatusPayload
read_axis entry =
    let flags = byte_at entry 4 in
    record {
      resource_id = read_u32 entry;
      enabled = not (bit_and flags 0x01 == 0);
      direction_positive = not (bit_and flags 0x02 == 0);
      step_level = not (bit_and flags 0x04 == 0);
      position_steps = decode_i64 (read_u64 (drop 8 entry));
      emitted_steps = read_u64 (drop 16 entry);
    }

-- The loop over the indices, `n` of them from `index` on, with the axes read so far.
unfoldable pub read_axes :
    ℕ
    → ℕ
    → Bytes
    → List MotionAxisStatusPayload
    → Result MotionPayloadError (List MotionAxisStatusPayload)
read_axes zero index payload axes = ok axes
read_axes (suc n) index payload axes =
    let entry = drop (status_header_size + index * axis_status_size) payload in
    throw_if (ltb 0x07 (read_u32 (drop 4 entry)) || read_u32 entry == 0) invalid_value
    >> read_axes n (index + 1) payload (axes ++ (read_axis entry ∷ []))

unfoldable pub decode_motion_status : Bytes → Result MotionPayloadError MotionStatusPayload
unfolding validate_axis_count
decode_motion_status payload = do
  throw_if (ltb (length payload) status_header_size) invalid_length
  let state = byte_at payload 0
  let fault = byte_at payload 1
  let axis_count = byte_at payload 2
  validate_axis_count axis_count
  throw_if
      (ltb state_faulted state
        || (ltb fault_queue_underrun fault
            || (not (byte_at payload 3 == 0)
                || (not (length payload == status_header_size + axis_count * axis_status_size)
                    || not (read_u16 (drop 90 payload) == 0)))))
      invalid_value
  let queue_depth = read_u16 (drop 12 payload)
  let queue_capacity = read_u16 (drop 14 payload)
  let maximum_queue_depth = read_u16 (drop 88 payload)
  throw_if (ltb queue_capacity queue_depth || ltb queue_capacity maximum_queue_depth) invalid_value
  axes ← read_axes axis_count 0 payload []
  ok (record {
    state = state;
    fault = fault;
    node_time_ns = read_u64 (drop 4 payload);
    queue_depth = queue_depth;
    queue_capacity = queue_capacity;
    last_accepted_sequence = read_u32 (drop 16 payload);
    last_completed_sequence = read_u32 (drop 20 payload);
    metrics = record {
      accepted_segments = read_u64 (drop 24 payload);
      rejected_segments = read_u64 (drop 32 payload);
      completed_segments = read_u64 (drop 40 payload);
      emitted_edges = read_u64 (drop 48 payload);
      emitted_steps = read_u64 (drop 56 payload);
      safety_stops = read_u64 (drop 64 payload);
      limit_stops = read_u64 (drop 72 payload);
      queue_underruns = read_u64 (drop 80 payload);
      maximum_queue_depth = maximum_queue_depth;
    };
    axes = axes;
  })
