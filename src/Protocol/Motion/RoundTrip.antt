-- ===== src/Protocol/Motion/RoundTrip.antt =====
-- The motion segment and its acceptance, of protocol/src/motion.cpp, encoded and decoded again.
use remote_bsp.Prelude.{
  ℕ, ◌+◌, ◌*◌, ◌^◌, ◌<◌, ◌≤◌, ◌≡◌, ◌≢◌, refl, sym, ap, ◌∙◌, List, [], ◌∷◌, ◌++◌, append-nil,
  append_assoc, length, length-append, drop-append, All, ok, arith, ne→not_==,
}
use remote_bsp.Prelude.Int.{InRange}
use remote_bsp.Bytes.{Bytes, u8}
use remote_bsp.Bytes.Laws.{
  le16, le32, le64, append_u32_lem, read_u16-le16, read_u32-le32, read_u64-le64,
}
use remote_bsp.Protocol.Motion.Signed.{to_u32, decode_i32-to_u32, to_u32-lt}
use remote_bsp.Protocol.Motion.Segment.{
  MotionAxisMovePayload, MotionSegmentPayload, MotionAcceptancePayload, bool_byte, append_moves,
  encode_motion_segment, read_moves, decode_motion_segment, encode_motion_acceptance,
  decode_motion_acceptance, maximum_motion_axes, segment_header_size, move_size,
}

-- An axis that the program can name, with steps of 32 bits.
pub record MoveFits (m : MotionAxisMovePayload) : Type 0 where
  pub named : m.resource_id ≢ 0
  pub resource_id : m.resource_id < 2 ^ 32
  pub steps : InRange (2 ^ 31) m.steps

pub record SegmentFits (s : MotionSegmentPayload) : Type 0 where
  pub numbered : s.sequence ≢ 0
  pub sequence : s.sequence < 2 ^ 32
  pub start_time_ns : s.start_time_ns < 2 ^ 64
  pub lasting : s.duration_ns ≢ 0
  pub duration_ns : s.duration_ns < 2 ^ 64
  pub some_axis : 1 ≤ length s.axes
  pub few_axes : length s.axes ≤ maximum_motion_axes

abbrev move_bytes : MotionAxisMovePayload → Bytes
move_bytes m = le32 m.resource_id ++ le32 (to_u32 m.steps)

abbrev moves_bytes : List MotionAxisMovePayload → Bytes
moves_bytes [] = []
moves_bytes (m ∷ ms) = move_bytes m ++ moves_bytes ms

length-moves_bytes : (ms : List MotionAxisMovePayload) → length (moves_bytes ms) ≡ length ms * 8
length-moves_bytes [] = refl
length-moves_bytes (m ∷ ms) = omega (arith, length-moves_bytes ms)

append_moves_lem :
    (output : Bytes) (ms : List MotionAxisMovePayload)
    → All MoveFits ms
    → append_moves output ms ≡ ok (output ++ moves_bytes ms)
unfolding append_moves
append_moves_lem output [] f = ap ok (sym (append-nil output))
append_moves_lem output (m ∷ ms) f =
    rw
      (
        ne→not_== m.resource_id 0 f.0.named,
        append_u32_lem output m.resource_id,
        append_u32_lem (output ++ le32 m.resource_id) (to_u32 m.steps),
        append_assoc output (le32 m.resource_id) (le32 (to_u32 m.steps)),
      )
      (append_moves_lem (output ++ move_bytes m) ms f.1
        ∙ ap ok (append_assoc output (move_bytes m) (moves_bytes ms)))

read_moves_lem :
    (ms : List MotionAxisMovePayload) (index : ℕ) (pre : Bytes) (done : List MotionAxisMovePayload)
    → All MoveFits ms
    → length pre ≡ 24 + index * 8
    → read_moves (length ms) index (pre ++ moves_bytes ms) done ≡ ok (done ++ ms)
unfolding read_moves
read_moves_lem [] index pre done f l = ap ok (sym (append-nil done))
read_moves_lem (m ∷ ms) index pre done f l =
    rw
      (
        drop-append (24 + index * 8) pre (move_bytes m ++ moves_bytes ms) l,
        read_u32-le32 m.resource_id (le32 (to_u32 m.steps) ++ moves_bytes ms) f.0.resource_id,
        read_u32-le32 (to_u32 m.steps) (moves_bytes ms) (to_u32-lt m.steps),
        decode_i32-to_u32 m.steps f.0.steps,
        ne→not_== m.resource_id 0 f.0.named,
        ← append_assoc pre (move_bytes m) (moves_bytes ms),
      )
      (read_moves_lem ms (index + 1) (pre ++ move_bytes m) (done ++ (m ∷ [])) f.1
          (omega (arith, length-append pre (move_bytes m)))
        ∙ ap ok (append_assoc done (m ∷ []) ms))

abbrev head_bytes : MotionSegmentPayload → Bytes
head_bytes s =
    le32 s.sequence
    ++ le64 s.start_time_ns
    ++ le64 s.duration_ns
    ++ bool_byte s.final_segment ∷ u8 (length s.axes) ∷ le16 0

encode_motion_segment_lem :
    (s : MotionSegmentPayload)
    → SegmentFits s
    → All MoveFits s.axes
    → encode_motion_segment s ≡ ok (head_bytes s ++ moves_bytes s.axes)
unfolding encode_motion_segment
encode_motion_segment_lem s f g = ground (arith, append_moves_lem (head_bytes s) s.axes g)

decode_motion_segment_at :
    (s : MotionSegmentPayload)
    → SegmentFits s
    → All MoveFits s.axes
    → decode_motion_segment (head_bytes s ++ moves_bytes s.axes) ≡ ok s
unfolding decode_motion_segment
decode_motion_segment_at s f g = ground (
  arith,
  length-moves_bytes s.axes,
  read_moves_lem s.axes 0 (head_bytes s) [] g refl,
  read_u32-le32 s.sequence (
      le64 s.start_time_ns
      ++ le64 s.duration_ns
      ++ bool_byte s.final_segment ∷ u8 (length s.axes) ∷ le16 0
      ++ moves_bytes s.axes),
  read_u64-le64 s.start_time_ns (
      le64 s.duration_ns
      ++ bool_byte s.final_segment ∷ u8 (length s.axes) ∷ le16 0
      ++ moves_bytes s.axes),
  read_u64-le64 s.duration_ns
      (bool_byte s.final_segment ∷ u8 (length s.axes) ∷ le16 0 ++ moves_bytes s.axes),
  read_u16-le16 0 (moves_bytes s.axes),
)

-- A segment of 1 to 64 axes, none of them with the resource id 0, with a sequence and a duration that
-- are not zero and all numbers within their widths, is encoded in 24 bytes and 8 for each axis, and decoded to itself.
pub decode-encode_motion_segment :
    (s : MotionSegmentPayload)
    → SegmentFits s
    → All MoveFits s.axes
    → (bytes : Bytes) × (encode_motion_segment s ≡ ok bytes)
      × (length bytes ≡ segment_header_size + length s.axes * move_size)
      × (decode_motion_segment bytes ≡ ok s)
decode-encode_motion_segment s f g = (
  head_bytes s ++ moves_bytes s.axes,
  encode_motion_segment_lem s f g,
  omega (arith, length-moves_bytes s.axes),
  decode_motion_segment_at s f g,
)

pub record AcceptanceFits (a : MotionAcceptancePayload) : Type 0 where
  pub numbered : a.sequence ≢ 0
  pub sequence : a.sequence < 2 ^ 32
  pub start_time_ns : a.start_time_ns < 2 ^ 64
  pub lasting : a.duration_ns ≢ 0
  pub duration_ns : a.duration_ns < 2 ^ 64

abbrev acceptance_bytes : MotionAcceptancePayload → Bytes
acceptance_bytes a =
    le32 a.sequence
    ++ le64 a.start_time_ns
    ++ le64 a.duration_ns
    ++ bool_byte a.final_segment ∷ 0 ∷ le16 0

decode_motion_acceptance_at :
    (a : MotionAcceptancePayload)
    → AcceptanceFits a
    → decode_motion_acceptance (acceptance_bytes a) ≡ ok a
unfolding decode_motion_acceptance
decode_motion_acceptance_at a f = ground (
  arith,
  read_u32-le32 a.sequence
      (le64 a.start_time_ns ++ le64 a.duration_ns ++ bool_byte a.final_segment ∷ 0 ∷ le16 0),
  read_u64-le64 a.start_time_ns (le64 a.duration_ns ++ bool_byte a.final_segment ∷ 0 ∷ le16 0),
  read_u64-le64 a.duration_ns (bool_byte a.final_segment ∷ 0 ∷ le16 0),
  read_u16-le16 0 [],
)

encode_motion_acceptance_lem :
    (a : MotionAcceptancePayload)
    → AcceptanceFits a
    → encode_motion_acceptance a ≡ ok (acceptance_bytes a)
unfolding encode_motion_acceptance
encode_motion_acceptance_lem a f = ground arith

-- An acceptance with a sequence and a duration that are not zero and all numbers within their widths
-- is encoded in 24 bytes and decoded to itself.
pub decode-encode_motion_acceptance :
    (a : MotionAcceptancePayload)
    → AcceptanceFits a
    → (bytes : Bytes) × (encode_motion_acceptance a ≡ ok bytes)
      × (length bytes ≡ segment_header_size)
      × (decode_motion_acceptance bytes ≡ ok a)
decode-encode_motion_acceptance a f =
    (acceptance_bytes a, encode_motion_acceptance_lem a f, refl, decode_motion_acceptance_at a f)
