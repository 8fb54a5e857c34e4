-- ===== src/Protocol/Motion/StatusRoundTrip.antt =====
-- The motion status of protocol/src/motion.cpp, encoded and decoded again.
use remote_bsp.Prelude.{
  ℕ, suc, ◌+◌, ◌*◌, ◌^◌, ◌<◌, ◌≤◌, ◌≡◌, ◌≢◌, refl, sym, ap, ◌∙◌, bit_and, not, false, List, [], ◌∷◌,
  ◌++◌, append-nil, append_assoc, length, length-append, drop, drop-append, All, ok, arith,
  ne→not_==, le→not_ltb, ◌==◌, ltb, ◌||◌,
}
use remote_bsp.Prelude.Int.{InRange}
use remote_bsp.Bytes.{Bytes, u8, read_u32}
use remote_bsp.Bytes.Laws.{
  le16, le32, le64, append_u32_lem, append_u64_lem, read_u16-le16, read_u32-le32, read_u64-le64,
  read_u32_sum,
}
use remote_bsp.Protocol.Motion.Signed.{to_u64, decode_i64-to_u64, to_u64-lt}
use remote_bsp.Protocol.Motion.Segment.{maximum_motion_axes}
use remote_bsp.Protocol.Motion.Status.{
  MotionAxisStatusPayload, MotionMetricsPayload, MotionStatusPayload, axis_flags, append_axes,
  read_axis, encode_motion_status, read_axes, decode_motion_status, status_header_size,
  axis_status_size, state_faulted, fault_queue_underrun,
}

pub record AxisFits (a : MotionAxisStatusPayload) : Type 0 where
  pub named : a.resource_id ≢ 0
  pub resource_id : a.resource_id < 2 ^ 32
  pub position_steps : InRange (2 ^ 63) a.position_steps
  pub emitted_steps : a.emitted_steps < 2 ^ 64

pub record MetricsFit (m : MotionMetricsPayload) : Type 0 where
  pub accepted_segments : m.accepted_segments < 2 ^ 64
  pub rejected_segments : m.rejected_segments < 2 ^ 64
  pub completed_segments : m.completed_segments < 2 ^ 64
  pub emitted_edges : m.emitted_edges < 2 ^ 64
  pub emitted_steps : m.emitted_steps < 2 ^ 64
  pub safety_stops : m.safety_stops < 2 ^ 64
  pub limit_stops : m.limit_stops < 2 ^ 64
  pub queue_underruns : m.queue_underruns < 2 ^ 64
  pub maximum_queue_depth : m.maximum_queue_depth < 2 ^ 16

pub record StatusFits (s : MotionStatusPayload) : Type 0 where
  pub state : s.state ≤ state_faulted
  pub fault : s.fault ≤ fault_queue_underrun
  pub node_time_ns : s.node_time_ns < 2 ^ 64
  pub queue_depth : s.queue_depth ≤ s.queue_capacity
  pub queue_capacity : s.queue_capacity < 2 ^ 16
  pub last_accepted_sequence : s.last_accepted_sequence < 2 ^ 32
  pub last_completed_sequence : s.last_completed_sequence < 2 ^ 32
  pub metrics : MetricsFit s.metrics
  pub maximum_queue_depth : s.metrics.maximum_queue_depth ≤ s.queue_capacity
  pub some_axis : 1 ≤ length s.axes
  pub few_axes : length s.axes ≤ maximum_motion_axes

-- The three levels of an axis in its flag byte.
record FlagsRead (a : MotionAxisStatusPayload) : Type 0 where
  small : axis_flags a ≤ 7
  enabled : not (bit_and (axis_flags a) 0x01 == 0) ≡ a.enabled
  direction_positive : not (bit_and (axis_flags a) 0x02 == 0) ≡ a.direction_positive
  step_level : not (bit_and (axis_flags a) 0x04 == 0) ≡ a.step_level

axis_flags-FlagsRead : (a : MotionAxisStatusPayload) → FlagsRead a
unfolding axis_flags
axis_flags-FlagsRead a = ground arith

abbrev axis_bytes : MotionAxisStatusPayload → Bytes
axis_bytes a =
    le32 a.resource_id
    ++ (axis_flags a ∷ 0 ∷ 0 ∷ 0 ∷ (le64 (to_u64 a.position_steps) ++ le64 a.emitted_steps))

abbrev axes_bytes : List MotionAxisStatusPayload → Bytes
axes_bytes [] = []
axes_bytes (a ∷ as') = axis_bytes a ++ axes_bytes as'

length-axes_bytes : (xs : List MotionAxisStatusPayload) → length (axes_bytes xs) ≡ length xs * 24
length-axes_bytes [] = refl
length-axes_bytes (a ∷ xs) = omega (arith, length-axes_bytes xs)

append_axes_lem :
    (output : Bytes) (xs : List MotionAxisStatusPayload)
    → All AxisFits xs
    → append_axes output xs ≡ ok (output ++ axes_bytes xs)
unfolding append_axes
append_axes_lem output [] f = ap ok (sym (append-nil output))
append_axes_lem output (a ∷ xs) f = rw (ne→not_== a.resource_id 0 f.0.named) (
    simp (append_u32_lem, append_u64_lem, append_assoc)
      (append_axes_lem (output ++ axis_bytes a) xs f.1
        ∙ ap ok (append_assoc output (axis_bytes a) (axes_bytes xs))))

read_flags :
    (a : MotionAxisStatusPayload) (rest : Bytes)
    → read_u32 (axis_flags a ∷ 0 ∷ 0 ∷ 0 ∷ rest) ≡ axis_flags a
read_flags a rest =
    let small : axis_flags a ≤ 7 = (axis_flags-FlagsRead a).small in
    omega (arith, read_u32_sum (axis_flags a) 0 0 0 rest (omega arith) (omega arith) (omega arith))

read_id :
    (a : MotionAxisStatusPayload) (rest : Bytes)
    → AxisFits a
    → read_u32 (axis_bytes a ++ rest) ≡ a.resource_id
read_id a rest f =
    read_u32-le32 a.resource_id
      (axis_flags a
        ∷ 0
        ∷ 0
        ∷ 0
        ∷ (le64 (to_u64 a.position_steps) ++ (le64 a.emitted_steps ++ rest)))
      f.resource_id

read_axis-axis_bytes :
    (a : MotionAxisStatusPayload) (rest : Bytes) → AxisFits a → read_axis (axis_bytes a ++ rest) ≡ a
unfolding read_axis
read_axis-axis_bytes a rest f =
    let flags = axis_flags-FlagsRead a in
    rw (
      read_id a rest f,
      flags.enabled,
      flags.direction_positive,
      flags.step_level,
      read_u64-le64 (to_u64 a.position_steps) (le64 a.emitted_steps ++ rest)
          (to_u64-lt a.position_steps),
      read_u64-le64 a.emitted_steps rest f.emitted_steps,
      decode_i64-to_u64 a.position_steps f.position_steps,
    )

accepts_axis :
    (a : MotionAxisStatusPayload) (rest : Bytes)
    → AxisFits a
    → (ltb 0x07 (read_u32 (drop 4 (axis_bytes a ++ rest))) || read_u32 (axis_bytes a ++ rest) == 0)
      ≡ false
accepts_axis a rest f =
    let flags = axis_flags-FlagsRead a in
    rw (
      read_id a rest f,
      read_flags a (le64 (to_u64 a.position_steps) ++ (le64 a.emitted_steps ++ rest)),
      ne→not_== a.resource_id 0 f.named,
      le→not_ltb 7 (axis_flags a) flags.small,
    )

-- One round of the loop of the decoder, at the entry of an axis.
read_axes_step :
    (n index : ℕ) (pre : Bytes) (a : MotionAxisStatusPayload) (rest : Bytes)
    (done : List MotionAxisStatusPayload)
    → AxisFits a
    → length pre ≡ 92 + index * 24
    → read_axes (suc n) index (pre ++ (axis_bytes a ++ rest)) done
      ≡ read_axes n (index + 1) (pre ++ (axis_bytes a ++ rest)) (done ++ (a ∷ []))
unfolding read_axes
read_axes_step n index pre a rest done f l = rw (
  drop-append (92 + index * 24) pre (axis_bytes a ++ rest) l,
  accepts_axis a rest f,
  read_axis-axis_bytes a rest f,
)

read_axes_lem :
    (xs : List MotionAxisStatusPayload) (index : ℕ) (pre : Bytes)
    (done : List MotionAxisStatusPayload)
    → All AxisFits xs
    → length pre ≡ 92 + index * 24
    → read_axes (length xs) index (pre ++ axes_bytes xs) done ≡ ok (done ++ xs)
read_axes_lem [] index pre done f l = unfold read_axes in ap ok (sym (append-nil done))
read_axes_lem (a ∷ xs) index pre done f l =
    read_axes_step (length xs) index pre a (axes_bytes xs) done f.0 l
    ∙ ap (λ w. read_axes (length xs) (index + 1) w (done ++ (a ∷ [])))
        (sym (append_assoc pre (axis_bytes a) (axes_bytes xs)))
    ∙ read_axes_lem xs (index + 1) (pre ++ axis_bytes a) (done ++ (a ∷ [])) f.1
        (omega (arith, length-append pre (axis_bytes a)))
    ∙ ap ok (append_assoc done (a ∷ []) xs)

abbrev head_bytes : MotionStatusPayload → Bytes
head_bytes s =
    s.state
    ∷ (s.fault
        ∷ (u8 (length s.axes)
            ∷ (0
                ∷ (le64 s.node_time_ns
                    ++ (le16 s.queue_depth
                        ++ (le16 s.queue_capacity
                            ++ (le32 s.last_accepted_sequence
                                ++ (le32 s.last_completed_sequence
                                    ++ (le64 s.metrics.accepted_segments
                                        ++ (le64 s.metrics.rejected_segments
                                            ++ (le64 s.metrics.completed_segments
                                                ++ (le64 s.metrics.emitted_edges
                                                    ++ (le64 s.metrics.emitted_steps
                                                        ++ (le64 s.metrics.safety_stops
                                                            ++ (le64 s.metrics.limit_stops
                                                            ++ (le64 s.metrics.queue_underruns
                                                            ++ (le16 s.metrics.maximum_queue_depth
                                                            ++ (le16 0 ++ []))))))))))))))))))

u8_count : (s : MotionStatusPayload) → StatusFits s → u8 (length s.axes) ≡ length s.axes
u8_count s f = omega arith

encode_motion_status_lem :
    (s : MotionStatusPayload)
    → StatusFits s
    → All AxisFits s.axes
    → encode_motion_status s ≡ ok (head_bytes s ++ axes_bytes s.axes)
unfolding encode_motion_status
encode_motion_status_lem s f g = ground (arith, append_axes_lem (head_bytes s) s.axes g)

read_counted :
    (s : MotionStatusPayload)
    → StatusFits s
    → All AxisFits s.axes
    → read_axes (u8 (length s.axes)) 0 (head_bytes s ++ axes_bytes s.axes) [] ≡ ok s.axes
read_counted s f g =
    ap (λ n. read_axes n 0 (head_bytes s ++ axes_bytes s.axes) []) (u8_count s f)
    ∙ read_axes_lem s.axes 0 (head_bytes s) [] g refl

decode_motion_status_at :
    (s : MotionStatusPayload)
    → StatusFits s
    → All AxisFits s.axes
    → decode_motion_status (head_bytes s ++ axes_bytes s.axes) ≡ ok s
unfolding decode_motion_status
decode_motion_status_at s f g =
    rw
      (
        read_u64-le64 s.node_time_ns
            (le16 s.queue_depth
              ++ (le16 s.queue_capacity
                  ++ (le32 s.last_accepted_sequence
                      ++ (le32 s.last_completed_sequence
                          ++ (le64 s.metrics.accepted_segments
                              ++ (le64 s.metrics.rejected_segments
                                  ++ (le64 s.metrics.completed_segments
                                      ++ (le64 s.metrics.emitted_edges
                                          ++ (le64 s.metrics.emitted_steps
                                              ++ (le64 s.metrics.safety_stops
                                                  ++ (le64 s.metrics.limit_stops
                                                      ++ (le64 s.metrics.queue_underruns
                                                          ++ (le16 s.metrics.maximum_queue_depth
                                                            ++ (le16 0
                                                            ++ (axes_bytes s.axes)))))))))))))))
            f.node_time_ns,
        read_u16-le16 s.queue_depth
            (le16 s.queue_capacity
              ++ (le32 s.last_accepted_sequence
                  ++ (le32 s.last_completed_sequence
                      ++ (le64 s.metrics.accepted_segments
                          ++ (le64 s.metrics.rejected_segments
                              ++ (le64 s.metrics.completed_segments
                                  ++ (le64 s.metrics.emitted_edges
                                      ++ (le64 s.metrics.emitted_steps
                                          ++ (le64 s.metrics.safety_stops
                                              ++ (le64 s.metrics.limit_stops
                                                  ++ (le64 s.metrics.queue_underruns
                                                      ++ (le16 s.metrics.maximum_queue_depth
                                                          ++ (le16 0
                                                            ++ (axes_bytes s.axes))))))))))))))
            (omega arith),
        read_u16-le16 s.queue_capacity
            (le32 s.last_accepted_sequence
              ++ (le32 s.last_completed_sequence
                  ++ (le64 s.metrics.accepted_segments
                      ++ (le64 s.metrics.rejected_segments
                          ++ (le64 s.metrics.completed_segments
                              ++ (le64 s.metrics.emitted_edges
                                  ++ (le64 s.metrics.emitted_steps
                                      ++ (le64 s.metrics.safety_stops
                                          ++ (le64 s.metrics.limit_stops
                                              ++ (le64 s.metrics.queue_underruns
                                                  ++ (le16 s.metrics.maximum_queue_depth
                                                      ++ (le16 0 ++ (axes_bytes s.axes)))))))))))))
            f.queue_capacity,
        read_u32-le32 s.last_accepted_sequence
            (le32 s.last_completed_sequence
              ++ (le64 s.metrics.accepted_segments
                  ++ (le64 s.metrics.rejected_segments
                      ++ (le64 s.metrics.completed_segments
                          ++ (le64 s.metrics.emitted_edges
                              ++ (le64 s.metrics.emitted_steps
                                  ++ (le64 s.metrics.safety_stops
                                      ++ (le64 s.metrics.limit_stops
                                          ++ (le64 s.metrics.queue_underruns
                                              ++ (le16 s.metrics.maximum_queue_depth
                                                  ++ (le16 0 ++ (axes_bytes s.axes))))))))))))
            f.last_accepted_sequence,
        read_u32-le32 s.last_completed_sequence
            (le64 s.metrics.accepted_segments
              ++ (le64 s.metrics.rejected_segments
                  ++ (le64 s.metrics.completed_segments
                      ++ (le64 s.metrics.emitted_edges
                          ++ (le64 s.metrics.emitted_steps
                              ++ (le64 s.metrics.safety_stops
                                  ++ (le64 s.metrics.limit_stops
                                      ++ (le64 s.metrics.queue_underruns
                                          ++ (le16 s.metrics.maximum_queue_depth
                                              ++ (le16 0 ++ (axes_bytes s.axes)))))))))))
            f.last_completed_sequence,
        read_u64-le64 s.metrics.accepted_segments
            (le64 s.metrics.rejected_segments
              ++ (le64 s.metrics.completed_segments
                  ++ (le64 s.metrics.emitted_edges
                      ++ (le64 s.metrics.emitted_steps
                          ++ (le64 s.metrics.safety_stops
                              ++ (le64 s.metrics.limit_stops
                                  ++ (le64 s.metrics.queue_underruns
                                      ++ (le16 s.metrics.maximum_queue_depth
                                          ++ (le16 0 ++ (axes_bytes s.axes))))))))))
            f.metrics.accepted_segments,
        read_u64-le64 s.metrics.rejected_segments
            (le64 s.metrics.completed_segments
              ++ (le64 s.metrics.emitted_edges
                  ++ (le64 s.metrics.emitted_steps
                      ++ (le64 s.metrics.safety_stops
                          ++ (le64 s.metrics.limit_stops
                              ++ (le64 s.metrics.queue_underruns
                                  ++ (le16 s.metrics.maximum_queue_depth
                                      ++ (le16 0 ++ (axes_bytes s.axes)))))))))
            f.metrics.rejected_segments,
        read_u64-le64 s.metrics.completed_segments
            (le64 s.metrics.emitted_edges
              ++ (le64 s.metrics.emitted_steps
                  ++ (le64 s.metrics.safety_stops
                      ++ (le64 s.metrics.limit_stops
                          ++ (le64 s.metrics.queue_underruns
                              ++ (le16 s.metrics.maximum_queue_depth
                                  ++ (le16 0 ++ (axes_bytes s.axes))))))))
            f.metrics.completed_segments,
        read_u64-le64 s.metrics.emitted_edges
            (le64 s.metrics.emitted_steps
              ++ (le64 s.metrics.safety_stops
                  ++ (le64 s.metrics.limit_stops
                      ++ (le64 s.metrics.queue_underruns
                          ++ (le16 s.metrics.maximum_queue_depth
                              ++ (le16 0 ++ (axes_bytes s.axes)))))))
            f.metrics.emitted_edges,
        read_u64-le64 s.metrics.emitted_steps
            (le64 s.metrics.safety_stops
              ++ (le64 s.metrics.limit_stops
                  ++ (le64 s.metrics.queue_underruns
                      ++ (le16 s.metrics.maximum_queue_depth ++ (le16 0 ++ (axes_bytes s.axes))))))
            f.metrics.emitted_steps,
        read_u64-le64 s.metrics.safety_stops
            (le64 s.metrics.limit_stops
              ++ (le64 s.metrics.queue_underruns
                  ++ (le16 s.metrics.maximum_queue_depth ++ (le16 0 ++ (axes_bytes s.axes)))))
            f.metrics.safety_stops,
        read_u64-le64 s.metrics.limit_stops
            (le64 s.metrics.queue_underruns
              ++ (le16 s.metrics.maximum_queue_depth ++ (le16 0 ++ (axes_bytes s.axes))))
            f.metrics.limit_stops,
        read_u64-le64 s.metrics.queue_underruns
            (le16 s.metrics.maximum_queue_depth ++ (le16 0 ++ (axes_bytes s.axes)))
            f.metrics.queue_underruns,
        read_u16-le16 s.metrics.maximum_queue_depth (le16 0 ++ (axes_bytes s.axes))
            f.metrics.maximum_queue_depth,
        read_u16-le16 0 (axes_bytes s.axes) (omega arith),
        read_counted s f g,
        u8_count s f,
      )
      (ground (arith, length-axes_bytes s.axes))

-- A status of 1 to 64 axes, none of them with the resource id 0, with a known state and fault, a queue within its capacity and all numbers
-- within their widths, is encoded in 92 bytes and 24 for each axis, and decoded to itself.
pub decode-encode_motion_status :
    (s : MotionStatusPayload)
    → StatusFits s
    → All AxisFits s.axes
    → (bytes : Bytes) × (encode_motion_status s ≡ ok bytes)
      × (length bytes ≡ status_header_size + length s.axes * axis_status_size)
      × (decode_motion_status bytes ≡ ok s)
decode-encode_motion_status s f g = (
  head_bytes s ++ axes_bytes s.axes,
  encode_motion_status_lem s f g,
  omega (arith, length-axes_bytes s.axes),
  decode_motion_status_at s f g,
)
