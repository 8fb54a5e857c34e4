-- ===== src/Bytes.antt =====
-- The little-endian helpers of the codecs: `put_u16`, `put_u32`, `get_u16`, `get_u32` of
-- protocol/src/packet.cpp and fragmentation.cpp, and the `append_*` and `read_*` of
-- protocol/src/discovery.cpp, resource.cpp and motion.cpp, which are the same text in each file.
-- A byte string is a list of numbers; the pointer `payload.data() + n` is `drop n payload`, and the
-- bytes from it are read after a test of the length.
pub mod Laws
use remote_bsp.Prelude.{
  ℕ, zero, suc, ◌+◌, ◌*◌, ◌/◌, ◌%◌, ◌^◌, ◌<◌, bit_or, List, [], ◌∷◌, ◌++◌, get_or, Bool, true,
  false, ◌==◌, ◌&&◌,
}

abbrev pub Bytes : Type 0
Bytes = List ℕ

abbrev pub IsByte : ℕ → Type 0
IsByte b = b < 2 ^ 8

abbrev pub u8 : ℕ → ℕ
u8 v = v % 2 ^ 8

abbrev pub u16 : ℕ → ℕ
u16 v = v % 2 ^ 16

abbrev pub u32 : ℕ → ℕ
u32 v = v % 2 ^ 32

-- `data[i]`
abbrev pub byte_at : Bytes → ℕ → ℕ
byte_at p i = get_or p i 0

unfoldable pub append_u16 : Bytes → ℕ → Bytes
append_u16 output value = (output ++ (u8 value ∷ [])) ++ (u8 (value / 2 ^ 8) ∷ [])

-- `for (index < count) output.push_back(value >> (index * 8));`, from `index` on
unfoldable pub append_bytes : ℕ → ℕ → Bytes → ℕ → Bytes
append_bytes zero index output value = output
append_bytes (suc n) index output value =
    append_bytes n (index + 1) (output ++ (u8 (value / 2 ^ (index * 8)) ∷ [])) value

unfoldable pub append_u32 : Bytes → ℕ → Bytes
unfolding append_bytes
append_u32 output value = append_bytes 4 0 output value

unfoldable pub append_u64 : Bytes → ℕ → Bytes
unfolding append_bytes
append_u64 output value = append_bytes 8 0 output value

unfoldable pub read_u16 : Bytes → ℕ
read_u16 input = u16 (bit_or (byte_at input 0) (byte_at input 1 * 2 ^ 8))

unfoldable pub read_u32 : Bytes → ℕ
read_u32 input =
    bit_or (bit_or (bit_or (byte_at input 0) (byte_at input 1 * 2 ^ 8)) (byte_at input 2 * 2 ^ 16))
      (byte_at input 3 * 2 ^ 24)

-- `for (index < count) value |= input[index] << (index * 8);`, from `index` on
unfoldable pub read_bytes : ℕ → ℕ → ℕ → Bytes → ℕ
read_bytes zero index value input = value
read_bytes (suc n) index value input =
    read_bytes n (index + 1) (bit_or value (byte_at input index * 2 ^ (index * 8))) input

unfoldable pub read_u64 : Bytes → ℕ
unfolding read_bytes
read_u64 input = read_bytes 8 0 0 input

-- Equality of byte strings, the `==` of `std::vector` and `std::array`.
abbrev pub bytes_eq : Bytes → Bytes → Bool
bytes_eq [] [] = true
bytes_eq [] (y ∷ ys) = false
bytes_eq (x ∷ xs) [] = false
bytes_eq (x ∷ xs) (y ∷ ys) = x == y && bytes_eq xs ys
