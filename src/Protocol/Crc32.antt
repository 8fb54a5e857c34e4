-- ===== src/Protocol/Crc32.antt =====
-- protocol/src/crc32.cpp: the CRC-32 of IEEE 802.3, bit by bit.
pub mod Detect
mod Examples
use remote_bsp.Prelude.{ℕ, zero, suc, ◌+◌, ◌-◌, ◌/◌, ◌%◌, ◌^◌, bit_and, bit_xor, List, [], ◌∷◌}
use remote_bsp.Bytes.{Bytes}

abbrev pub polynomial : ℕ
polynomial = 0xEDB88320

-- `-(int32_t)(crc & 1)` read as a `uint32_t`: no bits, or all of them.
unfoldable pub round_mask : ℕ → ℕ
round_mask crc = (2 ^ 32 - bit_and crc 1) % 2 ^ 32

-- The body of the loop over the bits.
unfoldable pub crc_round : ℕ → ℕ
unfolding round_mask
crc_round crc = bit_xor (crc / 2) (bit_and polynomial (round_mask crc))

-- The loop over the bits.
unfoldable pub crc_rounds : ℕ → ℕ → ℕ
unfolding crc_round
crc_rounds zero crc = crc
crc_rounds (suc n) crc = crc_rounds n (crc_round crc)

-- The body of the loop over the bytes.
unfoldable pub crc_byte : ℕ → ℕ → ℕ
unfolding crc_rounds
crc_byte crc x = crc_rounds 8 (bit_xor crc x)

unfoldable pub crc_from : ℕ → Bytes → ℕ
unfolding crc_byte
crc_from crc [] = crc
crc_from crc (x ∷ xs) = crc_from (crc_byte crc x) xs

-- `~crc` of a 32-bit register.
unfoldable pub crc32 : Bytes → ℕ
unfolding crc_from
crc32 bytes = 2 ^ 32 - 1 - crc_from 0xFFFFFFFF bytes
