-- ===== src/Protocol/Crc32/Detect.antt =====
-- The CRC register of protocol/src/crc32.cpp: its bounds, and which inputs give the same one.
use remote_bsp.Prelude.{
  ℕ, zero, suc, ◌/◌, ◌%◌, ◌^◌, ◌<◌, bit_xor, ◌≡◌, ◌≢◌, refl, ap, sym, ◌∙◌, [], ◌∷◌, ◌++◌, All,
  arith, ◌⊎◌, inl, inr,
}
use remote_bsp.Prelude.Bits.{bit_xor_comm, bit_xor-lt, bit_xor-high, bit_and-one, xor_cancel}
use remote_bsp.Bytes.{Bytes, IsByte}
use remote_bsp.Protocol.Crc32.{polynomial, crc_round, crc_rounds, crc_byte, crc_from, crc32}

abbrev pub IsWord : ℕ → Type 0
IsWord c = c < 2 ^ 32

crc_round_even : (c : ℕ) → c % 2 ≡ 0 → crc_round c ≡ bit_xor (c / 2) 0
unfolding crc_round
crc_round_even c h = rw (bit_and-one c, h)

crc_round_odd : (c : ℕ) → c % 2 ≡ 1 → crc_round c ≡ bit_xor (c / 2) polynomial
unfolding crc_round
crc_round_odd c h = rw (bit_and-one c, h)

parity : (c : ℕ) → (c % 2 ≡ 0) ⊎ (c % 2 ≡ 1)
parity c = omega arith

crc_round-IsWord : (c : ℕ) → IsWord c → IsWord (crc_round c)
crc_round-IsWord c h = elim (parity c) [
  | inl e ↦ rw (crc_round_even c e) (bit_xor-lt 32 (c / 2) 0 (omega arith) (omega arith))
  | inr e ↦ rw (crc_round_odd c e) (bit_xor-lt 32 (c / 2) polynomial (omega arith) (omega arith))
]

-- The polynomial has bit 31, so the result of a round shows which bit was shifted out.
crc_round_top_even : (c : ℕ) → IsWord c → c % 2 ≡ 0 → crc_round c / 2 ^ 31 ≡ 0
crc_round_top_even c h e = rw (crc_round_even c e) (bit_xor-high 31 (c / 2) 0 (omega arith))

crc_round_top_odd : (c : ℕ) → IsWord c → c % 2 ≡ 1 → crc_round c / 2 ^ 31 ≡ 1
crc_round_top_odd c h e = rw (crc_round_odd c e) (bit_xor-high 31 (c / 2) polynomial (omega arith))

xor_injective : (a b m : ℕ) → bit_xor a m ≡ bit_xor b m → a ≡ b
xor_injective a b m h = sym (xor_cancel a m) ∙ ap (λ t. bit_xor t m) h ∙ xor_cancel b m

-- The other operand of an exclusive or can be undone too.
xor_cancel_left : (c x : ℕ) → bit_xor c (bit_xor c x) ≡ x
xor_cancel_left c x = rw (bit_xor_comm c (bit_xor c x), bit_xor_comm c x) (xor_cancel x c)

pub replace-IsByte :
    (xs : Bytes) (a b : ℕ) (ys : Bytes)
    → All IsByte (xs ++ a ∷ ys)
    → IsByte b
    → All IsByte (xs ++ b ∷ ys)
replace-IsByte [] a b ys h hb = (hb, h.1)
replace-IsByte (x ∷ xs) a b ys h hb = (h.0, replace-IsByte xs a b ys h.1 hb)

crc_round-injective : (c d : ℕ) → IsWord c → IsWord d → crc_round c ≡ crc_round d → c ≡ d
crc_round-injective c d hc hd h = elim (parity c) [
  | inl e ↦ elim (parity d) [
    | inl f ↦
        omega (
          arith,
          xor_injective (c / 2) (d / 2) 0 (sym (crc_round_even c e) ∙ h ∙ crc_round_even d f),
        )
    | inr f ↦ absurd (
        omega (
          arith,
          crc_round_top_even c hc e,
          crc_round_top_odd d hd f,
          ap (λ (t : ℕ). t / 2 ^ 31) h,
        ))
  ]
  | inr e ↦ elim (parity d) [
    | inl f ↦ absurd (
        omega (
          arith,
          crc_round_top_odd c hc e,
          crc_round_top_even d hd f,
          ap (λ (t : ℕ). t / 2 ^ 31) h,
        ))
    | inr f ↦ omega (
      arith,
      xor_injective (c / 2) (d / 2) polynomial (sym (crc_round_odd c e) ∙ h ∙ crc_round_odd d f),
    )
  ]
]

crc_rounds-IsWord : (n c : ℕ) → IsWord c → IsWord (crc_rounds n c)
unfolding crc_rounds
crc_rounds-IsWord zero c h = h
crc_rounds-IsWord (suc n) c h = crc_rounds-IsWord n (crc_round c) (crc_round-IsWord c h)

crc_rounds-injective : (n c d : ℕ) → IsWord c → IsWord d → crc_rounds n c ≡ crc_rounds n d → c ≡ d
unfolding crc_rounds
crc_rounds-injective zero c d hc hd h = h
crc_rounds-injective (suc n) c d hc hd h = crc_round-injective c d hc hd (
    crc_rounds-injective n (crc_round c) (crc_round d) (crc_round-IsWord c hc)
      (crc_round-IsWord d hd) h)

crc_byte_lem : (c x : ℕ) → crc_byte c x ≡ crc_rounds 8 (bit_xor c x)
unfolding crc_byte
crc_byte_lem c x = refl

xor_byte-IsWord : (c x : ℕ) → IsWord c → IsByte x → IsWord (bit_xor c x)
xor_byte-IsWord c x hc hx = bit_xor-lt 32 c x hc (omega arith)

crc_byte-IsWord : (c x : ℕ) → IsWord c → IsByte x → IsWord (crc_byte c x)
crc_byte-IsWord c x hc hx =
    rw (crc_byte_lem c x) (crc_rounds-IsWord 8 (bit_xor c x) (xor_byte-IsWord c x hc hx))

-- A byte is injective in the register and in the byte.
crc_byte-xor :
    (c d x y : ℕ)
    → IsWord c
    → IsWord d
    → IsByte x
    → IsByte y
    → crc_byte c x ≡ crc_byte d y
    → bit_xor c x ≡ bit_xor d y
crc_byte-xor c d x y hc hd hx hy h =
    crc_rounds-injective 8 (bit_xor c x) (bit_xor d y) (xor_byte-IsWord c x hc hx)
      (xor_byte-IsWord d y hd hy) (sym (crc_byte_lem c x) ∙ h ∙ crc_byte_lem d y)

crc_byte-injective :
    (c d x : ℕ) → IsWord c → IsWord d → IsByte x → crc_byte c x ≡ crc_byte d x → c ≡ d
crc_byte-injective c d x hc hd hx h = xor_injective c d x (crc_byte-xor c d x x hc hd hx hx h)

crc_byte-injective_byte :
    (c x y : ℕ) → IsWord c → IsByte x → IsByte y → crc_byte c x ≡ crc_byte c y → x ≡ y
crc_byte-injective_byte c x y hc hx hy h =
    sym (xor_cancel_left c x)
    ∙ ap (bit_xor c) (crc_byte-xor c c x y hc hc hx hy h)
    ∙ xor_cancel_left c y

crc_from-IsWord : (c : ℕ) (xs : Bytes) → IsWord c → All IsByte xs → IsWord (crc_from c xs)
unfolding crc_from
crc_from-IsWord c [] hc h = hc
crc_from-IsWord c (x ∷ xs) hc h = crc_from-IsWord (crc_byte c x) xs (crc_byte-IsWord c x hc h.0) h.1

crc_from-injective :
    (c d : ℕ) (xs : Bytes)
    → IsWord c
    → IsWord d
    → All IsByte xs
    → crc_from c xs ≡ crc_from d xs
    → c ≡ d
unfolding crc_from
crc_from-injective c d [] hc hd h e = e
crc_from-injective c d (x ∷ xs) hc hd h e = crc_byte-injective c d x hc hd h.0 (
    crc_from-injective (crc_byte c x) (crc_byte d x) xs (crc_byte-IsWord c x hc h.0)
      (crc_byte-IsWord d x hd h.0) h.1 e)

crc_from-detects :
    (c : ℕ) (xs : Bytes) (a b : ℕ) (ys : Bytes)
    → IsWord c
    → All IsByte (xs ++ a ∷ ys)
    → IsByte b
    → crc_from c (xs ++ a ∷ ys) ≡ crc_from c (xs ++ b ∷ ys)
    → a ≡ b
unfolding crc_from
crc_from-detects c [] a b ys hc h hb e = crc_byte-injective_byte c a b hc h.0 hb (
    crc_from-injective (crc_byte c a) (crc_byte c b) ys (crc_byte-IsWord c a hc h.0)
      (crc_byte-IsWord c b hc hb) h.1 e)
crc_from-detects c (x ∷ xs) a b ys hc h hb e =
    crc_from-detects (crc_byte c x) xs a b ys (crc_byte-IsWord c x hc h.0) h.1 hb e

-- The checksum of a byte string fits 32 bits.
pub crc32-IsWord : (xs : Bytes) → IsWord (crc32 xs)
unfolding crc32
crc32-IsWord xs = omega arith

-- Two byte strings that are equal but for one byte, with one checksum, are equal.
pub crc32-same :
    (xs : Bytes) (a b : ℕ) (ys : Bytes)
    → All IsByte (xs ++ a ∷ ys)
    → IsByte b
    → crc32 (xs ++ a ∷ ys) ≡ crc32 (xs ++ b ∷ ys)
    → a ≡ b
unfolding crc32
crc32-same xs a b ys h hb e = crc_from-detects 0xFFFFFFFF xs a b ys (omega arith) h hb (
    omega (
      arith,
      crc_from-IsWord 0xFFFFFFFF (xs ++ a ∷ ys) (omega arith) h,
      crc_from-IsWord 0xFFFFFFFF (xs ++ b ∷ ys) (omega arith) (replace-IsByte xs a b ys h hb),
    ))

-- Two byte strings that differ in exactly one byte have different checksums.
pub crc32-detects :
    (xs : Bytes) (a b : ℕ) (ys : Bytes)
    → All IsByte (xs ++ a ∷ ys)
    → IsByte b
    → a ≢ b
    → crc32 (xs ++ a ∷ ys) ≢ crc32 (xs ++ b ∷ ys)
crc32-detects xs a b ys h hb ne e = ne (crc32-same xs a b ys h hb e)
