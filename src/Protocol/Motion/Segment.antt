-- ===== src/Protocol/Motion/Segment.antt =====
-- The motion segment and its acceptance, of protocol/src/motion.cpp.
use remote_bsp.Prelude.{
  ℕ, zero, suc, ◌+◌, ◌*◌, ltb, ◌==◌, not, ◌||◌, Bool, if◌then◌else◌, List, [], ◌∷◌, ◌++◌, length,
  drop, Result, ok, throw_if, ◌>>◌, ◌>>=◌,
}
use remote_bsp.Prelude.Int.{ℤ}
use remote_bsp.Bytes.{
  Bytes, u8, byte_at, append_u16, append_u32, append_u64, read_u16, read_u32, read_u64,
}
use remote_bsp.Protocol.Motion.Signed.{to_u32, decode_i32}

abbrev pub maximum_motion_axes : ℕ
maximum_motion_axes = 64

abbrev pub segment_header_size : ℕ
segment_header_size = 24

abbrev pub move_size : ℕ
move_size = 8

pub record MotionAxisMovePayload : Type 0 where
  pub resource_id : ℕ
  pub steps : ℤ

pub record MotionSegmentPayload : Type 0 where
  pub sequence : ℕ
  pub start_time_ns : ℕ
  pub duration_ns : ℕ
  pub final_segment : Bool
  pub axes : List MotionAxisMovePayload

pub record MotionAcceptancePayload : Type 0 where
  pub sequence : ℕ
  pub start_time_ns : ℕ
  pub duration_ns : ℕ
  pub final_segment : Bool

pub data MotionPayloadError : Type 0 where
  invalid_length invalid_value too_many_axes : MotionPayloadError

unfoldable pub validate_axis_count : ℕ → Result MotionPayloadError (Unit {0})
validate_axis_count count = throw_if (count == 0 || ltb maximum_motion_axes count) too_many_axes

-- `static_cast<std::uint8_t>` of a `bool`
abbrev pub bool_byte : Bool → ℕ
bool_byte flag = if flag then 1 else 0

-- The loop over the axes, with what was written before it.
unfoldable pub append_moves : Bytes → List MotionAxisMovePayload → Result MotionPayloadError Bytes
append_moves output [] = ok output
append_moves output (axis ∷ axes) =
    throw_if (axis.resource_id == 0) invalid_value
    >> append_moves (append_u32 (append_u32 output axis.resource_id) (to_u32 axis.steps)) axes

unfoldable pub encode_motion_segment : MotionSegmentPayload → Result MotionPayloadError Bytes
unfolding validate_axis_count append_u16 append_u32 append_u64
encode_motion_segment s = do
  validate_axis_count (length s.axes)
  throw_if (s.sequence == 0 || s.duration_ns == 0) invalid_value
  let timed = append_u64 (append_u64 (append_u32 [] s.sequence) s.start_time_ns) s.duration_ns
  let counted = (timed ++ (bool_byte s.final_segment ∷ [])) ++ (u8 (length s.axes) ∷ [])
  append_moves (append_u16 counted 0) s.axes

-- The loop over the indices, `n` of them from `index` on, with the axes read so far.
unfoldable pub read_moves :
    ℕ
    → ℕ
    → Bytes
    → List MotionAxisMovePayload
    → Result MotionPayloadError (List MotionAxisMovePayload)
read_moves zero index payload axes = ok axes
read_moves (suc n) index payload axes =
    let entry = drop (segment_header_size + index * move_size) payload in
    let resource_id = read_u32 entry in
    let axis : MotionAxisMovePayload = record {
      resource_id = resource_id;
      steps = decode_i32 (read_u32 (drop 4 entry));
    } in
    throw_if (resource_id == 0) invalid_value
    >> read_moves n (index + 1) payload (axes ++ (axis ∷ []))

unfoldable pub decode_motion_segment : Bytes → Result MotionPayloadError MotionSegmentPayload
unfolding validate_axis_count
decode_motion_segment payload = do
  throw_if (ltb (length payload) segment_header_size) invalid_length
  let axis_count = byte_at payload 21
  validate_axis_count axis_count
  throw_if
      (not (length payload == segment_header_size + axis_count * move_size)
        || (ltb 1 (byte_at payload 20) || not (read_u16 (drop 22 payload) == 0)))
      invalid_length
  let sequence = read_u32 payload
  let duration_ns = read_u64 (drop 12 payload)
  throw_if (sequence == 0 || duration_ns == 0) invalid_value
  axes ← read_moves axis_count 0 payload []
  ok (record {
    sequence = sequence;
    start_time_ns = read_u64 (drop 4 payload);
    duration_ns = duration_ns;
    final_segment = not (byte_at payload 20 == 0);
    axes = axes;
  })

unfoldable pub encode_motion_acceptance : MotionAcceptancePayload → Result MotionPayloadError Bytes
unfolding append_u16 append_u32 append_u64
encode_motion_acceptance a = do
  throw_if (a.sequence == 0 || a.duration_ns == 0) invalid_value
  let timed = append_u64 (append_u64 (append_u32 [] a.sequence) a.start_time_ns) a.duration_ns
  ok (append_u16 ((timed ++ (bool_byte a.final_segment ∷ [])) ++ (0 ∷ [])) 0)

unfoldable pub decode_motion_acceptance : Bytes → Result MotionPayloadError MotionAcceptancePayload
decode_motion_acceptance payload = do
  throw_if
      (not (length payload == segment_header_size)
        || (ltb 1 (byte_at payload 20)
            || (not (byte_at payload 21 == 0) || not (read_u16 (drop 22 payload) == 0))))
      invalid_length
  let acceptance : MotionAcceptancePayload = record {
    sequence = read_u32 payload;
    start_time_ns = read_u64 (drop 4 payload);
    duration_ns = read_u64 (drop 12 payload);
    final_segment = not (byte_at payload 20 == 0);
  }
  throw_if (acceptance.sequence == 0 || acceptance.duration_ns == 0) invalid_value
  ok acceptance
