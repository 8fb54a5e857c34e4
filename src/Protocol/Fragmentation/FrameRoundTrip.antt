-- ===== src/Protocol/Fragmentation/FrameRoundTrip.antt =====
-- A fragment of protocol/src/fragmentation.cpp in its frame, with the zeros that a CAN-FD controller
-- adds behind it.
use remote_bsp.Prelude.{
  ℕ, zero, suc, ◌+◌, ◌*◌, ◌/◌, ◌%◌, ◌^◌, ◌<◌, ◌≤◌, bit_and, ◌≡◌, refl, sym, subst, ◌==◌, Bool, true,
  ◌&&◌, ◌∷◌, ◌++◌, length, length-append, take-append, drop-append, all, replicate,
  length-replicate, ok, arith,
}
use remote_bsp.Prelude.Bits.{bit_or_fields}
use remote_bsp.Bytes.{Bytes, u8}
use remote_bsp.Bytes.Laws.{le16, read_u16-le16}
use remote_bsp.Protocol.Fragmentation.Frame.{
  Fragment, encode_fragment, decode_fragment, reserved_flags, length_and_flags, encoded_length,
  fragment_header_size, fragment_first, fragment_flag_mask, has_flag,
}

-- What the checks of `encode_fragment` ask of a fragment and an MTU.
pub record IsFragment (f : Fragment) (mtu : ℕ) : Type 0 where
  pub flags : f.flags < 4
  pub starts : has_flag f.flags fragment_first ≡ (f.sequence == 0)
  pub filled : 1 ≤ length f.payload
  pub within : fragment_header_size + length f.payload ≤ mtu
  pub short : length f.payload ≤ 63
  pub transfer_id : f.transfer_id < 2 ^ 16
  pub sequence : f.sequence < 2 ^ 16

-- Two functions of a byte that agree on a table, which is checked by evaluation.
module _ (f g : ℕ → ℕ) where
  agree_below : ℕ → Bool
  agree_below zero = true
  agree_below (suc bound) = (f bound == g bound) && agree_below bound

  agree_at : (bound x : ℕ) → x < bound → agree_below bound ≡ true → f x ≡ g x
  unfolding agree_below
  agree_at zero x below table = absurd (omega arith)
  agree_at (suc bound) x below table = ground (arith, agree_at bound x, at_bound)
    where
      at_bound : x ≡ bound → f bound ≡ g bound → f x ≡ g x
      at_bound same h = subst (λ y. f y ≡ g y) (sym same) h

mask_low : (x : ℕ) → x < 256 → bit_and x fragment_flag_mask ≡ x % 4
unfolding agree_below
mask_low x h = agree_at (λ y. bit_and y fragment_flag_mask) (λ y. y % 4) 256 x h refl

encoded_length_lem : (x : ℕ) → x < 256 → encoded_length x ≡ x / 4
unfolding agree_below encoded_length
encoded_length_lem x h = agree_at encoded_length (λ y. y / 4) 256 x h refl

reserved_flags_lem : (x : ℕ) → x < 4 → reserved_flags x ≡ 0
unfolding agree_below reserved_flags
reserved_flags_lem x h = agree_at reserved_flags (λ y. 0) 4 x h refl

reserved_flags_byte : (x : ℕ) → x < 256 → reserved_flags x ≡ x / 4 * 4
unfolding agree_below reserved_flags
reserved_flags_byte x h = agree_at reserved_flags (λ y. y / 4 * 4) 256 x h refl

length_and_flags_lem :
    (flags size : ℕ) → flags < 4 → size ≤ 63 → length_and_flags flags size ≡ flags + size * 4
unfolding length_and_flags
length_and_flags_lem flags size h k = omega (arith, bit_or_fields 2 flags (u8 size) h)

-- The frame of a fragment.
abbrev pub frame_of : Fragment → Bytes
frame_of f = le16 f.transfer_id ++ le16 f.sequence ++ (f.flags + length f.payload * 4) ∷ f.payload

pub encode_fragment_lem :
    (f : Fragment) (mtu : ℕ) → IsFragment f mtu → encode_fragment f mtu ≡ ok (frame_of f)
unfolding encode_fragment
encode_fragment_lem f mtu v =
    rw
      (
        reserved_flags_lem f.flags v.flags,
        v.starts,
        length_and_flags_lem f.flags (length f.payload) v.flags v.short,
      )
      (ground arith)

all_zero : (n : ℕ) → all (λ byte. byte == 0) (replicate n 0) ≡ true
all_zero zero = refl
all_zero (suc n) = all_zero n

length_read :
    (f : Fragment) {mtu : ℕ}
    → IsFragment f mtu
    → encoded_length (f.flags + length f.payload * 4) ≡ length f.payload
length_read f v = omega (arith, encoded_length_lem (f.flags + length f.payload * 4) (omega arith))

flags_read :
    (f : Fragment) {mtu : ℕ}
    → IsFragment f mtu
    → bit_and (f.flags + length f.payload * 4) fragment_flag_mask ≡ f.flags
flags_read f v = omega (arith, mask_low (f.flags + length f.payload * 4) (omega arith))

pub decode_padded :
    (f : Fragment) (mtu n : ℕ)
    → IsFragment f mtu
    → length (frame_of f) + n ≤ mtu
    → decode_fragment (frame_of f ++ replicate n 0) mtu ≡ ok f
unfolding decode_fragment
decode_padded f mtu n v h =
    rw
      (
        length_read f v,
        flags_read f v,
        v.starts,
        read_u16-le16 f.transfer_id
            (le16 f.sequence ++ (f.flags + length f.payload * 4) ∷ (f.payload ++ replicate n 0))
            v.transfer_id,
        read_u16-le16 f.sequence ((f.flags + length f.payload * 4) ∷ (f.payload ++ replicate n 0))
            v.sequence,
        drop-append (length f.payload) f.payload (replicate n 0) refl,
        take-append (length f.payload) f.payload (replicate n 0) refl,
        all_zero n,
      )
      (ground (arith, length-append f.payload (replicate n 0), length-replicate {A = ℕ} n 0))

-- `decode_fragment` returns the fragment that `encode_fragment` wrote, with any number of zeros behind
-- the frame, as a CAN-FD controller adds them, as long as the frame fits the MTU.
pub decode-encode_fragment :
    (f : Fragment) (mtu n : ℕ)
    → IsFragment f mtu
    → fragment_header_size + length f.payload + n ≤ mtu
    → (frame : Bytes) × (encode_fragment f mtu ≡ ok frame)
      × (length frame ≡ fragment_header_size + length f.payload)
      × (decode_fragment (frame ++ replicate n 0) mtu ≡ ok f)
decode-encode_fragment f mtu n v h =
    (frame_of f, encode_fragment_lem f mtu v, omega arith, decode_padded f mtu n v (omega arith))

-- What `encode_fragment` accepts is a fragment in this sense, if its transfer id and sequence are
-- 16-bit numbers and its flags a byte.
pub encode_fragment-IsFragment :
    (f : Fragment) (mtu : ℕ) (frame : Bytes)
    → f.flags < 256
    → f.transfer_id < 2 ^ 16
    → f.sequence < 2 ^ 16
    → encode_fragment f mtu ≡ ok frame
    → IsFragment f mtu
unfolding encode_fragment
encode_fragment-IsFragment f mtu frame h1 h2 h3 e = ground (arith, reserved_flags_byte f.flags h1)
