-- ===== src/Protocol/Motion/Signed.antt =====
-- Signed numbers on the wire: the casts of protocol/src/motion.cpp and `decode_i32`, `decode_i64`.
use remote_bsp.Prelude.{ℕ, ◌-◌, ◌%◌, ◌^◌, leb, if◌then◌else◌, ◌<◌, ◌≡◌, arith}
use remote_bsp.Prelude.Int.{ℤ, pos, negsuc, InRange}

-- `static_cast<std::uint32_t>(steps)` and `static_cast<std::uint64_t>(position)`
unfoldable pub to_u32 : ℤ → ℕ
to_u32 (pos n) = n % 2 ^ 32
to_u32 (negsuc n) = 2 ^ 32 - 1 - n % 2 ^ 32

unfoldable pub to_u64 : ℤ → ℕ
to_u64 (pos n) = n % 2 ^ 64
to_u64 (negsuc n) = 2 ^ 64 - 1 - n % 2 ^ 64

-- `-1 - static_cast<std::int32_t>(max - value)` is `negsuc (max - value)`.
unfoldable pub decode_i32 : ℕ → ℤ
decode_i32 value = if leb value (2 ^ 31 - 1) then pos value else negsuc (2 ^ 32 - 1 - value)

unfoldable pub decode_i64 : ℕ → ℤ
decode_i64 value = if leb value (2 ^ 63 - 1) then pos value else negsuc (2 ^ 64 - 1 - value)

-- A 32-bit integer is what its bit pattern is decoded to, and so for 64 bits.
pub decode_i32-to_u32 : (z : ℤ) → InRange (2 ^ 31) z → decode_i32 (to_u32 z) ≡ z
unfolding decode_i32 to_u32
decode_i32-to_u32 (pos n) h = ground arith
decode_i32-to_u32 (negsuc n) h = ground arith

pub decode_i64-to_u64 : (z : ℤ) → InRange (2 ^ 63) z → decode_i64 (to_u64 z) ≡ z
unfolding decode_i64 to_u64
decode_i64-to_u64 (pos n) h = ground arith
decode_i64-to_u64 (negsuc n) h = ground arith

pub to_u32-lt : (z : ℤ) → to_u32 z < 2 ^ 32
unfolding to_u32
to_u32-lt (pos n) = omega arith
to_u32-lt (negsuc n) = omega arith

pub to_u64-lt : (z : ℤ) → to_u64 z < 2 ^ 64
unfolding to_u64
to_u64-lt (pos n) = omega arith
to_u64-lt (negsuc n) = omega arith
