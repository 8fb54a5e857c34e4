-- ===== src/Protocol/Fragmentation/Frame.antt =====
-- One fragment in one frame: `encode_fragment` and `decode_fragment`.
use remote_bsp.Prelude.{
  ℕ, ◌+◌, ◌-◌, ◌*◌, ◌/◌, ◌^◌, bit_and, bit_or, ltb, leb, ◌==◌, not, Bool, true, false, [], ◌∷◌,
  ◌++◌, length, take, drop, all, Result, ok, throw_if, ◌>>◌,
}
use remote_bsp.Bytes.{Bytes, u8, byte_at, append_u16, read_u16}

abbrev pub fragment_header_size : ℕ
fragment_header_size = 5

abbrev pub fragment_first : ℕ
fragment_first = 0x01

abbrev pub fragment_last : ℕ
fragment_last = 0x02

abbrev pub fragment_flag_mask : ℕ
fragment_flag_mask = 0x03

abbrev pub fragment_length_shift : ℕ
fragment_length_shift = 2

abbrev pub fragment_length_mask : ℕ
fragment_length_mask = 0xFC

pub record Fragment : Type 0 where
  pub transfer_id : ℕ
  pub sequence : ℕ
  pub flags : ℕ
  pub payload : Bytes

pub data FragmentError : Type 0 where
  invalid_mtu empty_packet packet_too_large frame_too_short frame_too_large : FragmentError
  invalid_flags invalid_padding invalid_sequence unknown_transfer : FragmentError
  conflicting_duplicate data_after_last reassembled_packet_too_large : FragmentError

unfoldable pub validate_mtu : ℕ → Result FragmentError (Unit {0})
validate_mtu mtu = throw_if (leb mtu fragment_header_size) invalid_mtu

-- `a != b` of two Booleans
abbrev pub bool_ne : Bool → Bool → Bool
bool_ne true b = not b
bool_ne false b = b

-- `(flags & bit) != 0`
abbrev pub has_flag : ℕ → ℕ → Bool
has_flag flags bit = not (bit_and flags bit == 0)

-- `fragment.flags & ~kFragmentFlagMask`, where `~` makes an `int` of 32 bits
unfoldable pub reserved_flags : ℕ → ℕ
reserved_flags flags = bit_and flags (2 ^ 32 - 1 - fragment_flag_mask)

-- The fifth byte: the length of the payload above the two flags.
unfoldable pub length_and_flags : ℕ → ℕ → ℕ
length_and_flags flags size = u8 (bit_or flags (u8 size * 2 ^ fragment_length_shift))

unfoldable pub encoded_length : ℕ → ℕ
encoded_length byte = bit_and byte fragment_length_mask / 2 ^ fragment_length_shift

unfoldable pub encode_fragment : Fragment → ℕ → Result FragmentError Bytes
unfolding validate_mtu append_u16
encode_fragment f mtu = do
  validate_mtu mtu
  throw_if (not (reserved_flags f.flags == 0)) invalid_flags
  throw_if (bool_ne (has_flag f.flags fragment_first) (f.sequence == 0)) invalid_sequence
  throw_if (length f.payload == 0) empty_packet
  throw_if (ltb mtu (fragment_header_size + length f.payload)) frame_too_large
  throw_if (ltb (fragment_length_mask / 2 ^ fragment_length_shift) (length f.payload))
      frame_too_large
  let head = append_u16 (append_u16 [] f.transfer_id) f.sequence
  ok ((head ++ (length_and_flags f.flags (length f.payload) ∷ [])) ++ f.payload)

unfoldable pub decode_fragment : Bytes → ℕ → Result FragmentError Fragment
unfolding validate_mtu
decode_fragment frame mtu = do
  validate_mtu mtu
  throw_if (leb (length frame) fragment_header_size) frame_too_short
  throw_if (ltb mtu (length frame)) frame_too_large
  let payload_length = encoded_length (byte_at frame 4)
  throw_if (payload_length == 0) empty_packet
  throw_if (ltb mtu (fragment_header_size + payload_length)) frame_too_large
  throw_if (ltb (length frame) (fragment_header_size + payload_length)) frame_too_short
  throw_if (not (all (λ byte. byte == 0) (drop payload_length (drop fragment_header_size frame))))
      invalid_padding
  let sequence = read_u16 (drop 2 frame)
  let flags = bit_and (byte_at frame 4) fragment_flag_mask
  throw_if (bool_ne (has_flag flags fragment_first) (sequence == 0)) invalid_sequence
  ok (record {
    transfer_id = read_u16 frame;
    sequence = sequence;
    flags = flags;
    payload = take payload_length (drop fragment_header_size frame);
  })
