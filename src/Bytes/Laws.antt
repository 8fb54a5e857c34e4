-- ===== src/Bytes/Laws.antt =====
-- Reading back what was appended, and appending again what was read.
use remote_bsp.Prelude.{
  ℕ, zero, suc, All, ◌+◌, ◌*◌, ◌/◌, ◌^◌, ◌<◌, bit_or, ◌≡◌, refl, ap, ◌∙◌, ◌↔◌, true, [], ◌∷◌, ◌++◌,
  append_assoc, arith,
}
use remote_bsp.Prelude.Bits.{bit_or_fields}
use remote_bsp.Bytes.{
  Bytes, IsByte, byte_at, u8, append_u16, append_u32, append_u64, read_u16, read_u32, read_u64,
  bytes_eq,
}

-- The bytes of a number, lowest first.
abbrev pub le16 : ℕ → Bytes
le16 v = u8 v ∷ u8 (v / 2 ^ 8) ∷ []

abbrev pub le32 : ℕ → Bytes
le32 v = u8 (v / 2 ^ 0) ∷ u8 (v / 2 ^ 8) ∷ u8 (v / 2 ^ 16) ∷ u8 (v / 2 ^ 24) ∷ []

abbrev pub le64 : ℕ → Bytes
le64 v =
    u8 (v / 2 ^ 0)
    ∷ u8 (v / 2 ^ 8)
    ∷ u8 (v / 2 ^ 16)
    ∷ u8 (v / 2 ^ 24)
    ∷ u8 (v / 2 ^ 32)
    ∷ u8 (v / 2 ^ 40)
    ∷ u8 (v / 2 ^ 48)
    ∷ u8 (v / 2 ^ 56)
    ∷ []

pub append_u16_lem : (out : Bytes) (v : ℕ) → append_u16 out v ≡ out ++ le16 v
unfolding append_u16
append_u16_lem out v = simp append_assoc

pub append_u32_lem : (out : Bytes) (v : ℕ) → append_u32 out v ≡ out ++ le32 v
unfolding append_u32
append_u32_lem out v = simp append_assoc

pub append_u64_lem : (out : Bytes) (v : ℕ) → append_u64 out v ≡ out ++ le64 v
unfolding append_u64
append_u64_lem out v = simp append_assoc

-- The bytes below, joined by `|`, are a sum.
or_u16 : (a b : ℕ) → IsByte a → bit_or a (b * 2 ^ 8) ≡ a + b * 2 ^ 8
or_u16 a b ha = bit_or_fields 8 a b ha

or_u32 :
    (a b c d : ℕ)
    → IsByte a
    → IsByte b
    → IsByte c
    → bit_or (bit_or (bit_or a (b * 2 ^ 8)) (c * 2 ^ 16)) (d * 2 ^ 24)
      ≡ a + b * 2 ^ 8 + c * 2 ^ 16 + d * 2 ^ 24
or_u32 a b c d ha hb hc = rw (
  bit_or_fields 8 a b ha,
  bit_or_fields 16 (a + b * 2 ^ 8) c (omega arith),
  bit_or_fields 24 (a + b * 2 ^ 8 + c * 2 ^ 16) d (omega arith),
)

pub read_u16_sum :
    (a b : ℕ) (rest : Bytes) → IsByte a → IsByte b → read_u16 (a ∷ b ∷ rest) ≡ a + b * 2 ^ 8
unfolding read_u16
read_u16_sum a b rest ha hb = omega (arith, or_u16 a b ha)

pub read_u32_sum :
    (a b c d : ℕ) (rest : Bytes)
    → IsByte a
    → IsByte b
    → IsByte c
    → read_u32 (a ∷ b ∷ c ∷ d ∷ rest) ≡ a + b * 2 ^ 8 + c * 2 ^ 16 + d * 2 ^ 24
unfolding read_u32
read_u32_sum a b c d rest ha hb hc = or_u32 a b c d ha hb hc

-- One round of the loop of `read_u64` adds a byte above those read.
read_bytes_round : (k a b : ℕ) → a < 2 ^ k → bit_or a (b * 2 ^ k) ≡ a + b * 2 ^ k
read_bytes_round k a b h = bit_or_fields k a b h

pub read_u64_sum :
    (a b c d e f g h : ℕ) (rest : Bytes)
    → IsByte a
    → IsByte b
    → IsByte c
    → IsByte d
    → IsByte e
    → IsByte f
    → IsByte g
    → read_u64 (a ∷ b ∷ c ∷ d ∷ e ∷ f ∷ g ∷ h ∷ rest)
      ≡ a + b * 2 ^ 8 + c * 2 ^ 16 + d * 2 ^ 24 + e * 2 ^ 32 + f * 2 ^ 40 + g * 2 ^ 48 + h * 2 ^ 56
unfolding read_u64
read_u64_sum a b c d e f g h rest ha hb hc hd he hf hg =
    rw
      (
        bit_or_fields 0 0 a (omega arith),
        bit_or_fields 8 (0 + a * 2 ^ 0) b (omega arith),
        bit_or_fields 16 (0 + a * 2 ^ 0 + b * 2 ^ 8) c (omega arith),
        bit_or_fields 24 (0 + a * 2 ^ 0 + b * 2 ^ 8 + c * 2 ^ 16) d (omega arith),
        bit_or_fields 32 (0 + a * 2 ^ 0 + b * 2 ^ 8 + c * 2 ^ 16 + d * 2 ^ 24) e (omega arith),
        bit_or_fields 40 (0 + a * 2 ^ 0 + b * 2 ^ 8 + c * 2 ^ 16 + d * 2 ^ 24 + e * 2 ^ 32) f
            (omega arith),
        bit_or_fields 48
            (0 + a * 2 ^ 0 + b * 2 ^ 8 + c * 2 ^ 16 + d * 2 ^ 24 + e * 2 ^ 32 + f * 2 ^ 40) g
            (omega arith),
        bit_or_fields 56
            (0
              + a * 2 ^ 0
              + b * 2 ^ 8
              + c * 2 ^ 16
              + d * 2 ^ 24
              + e * 2 ^ 32
              + f * 2 ^ 40
              + g * 2 ^ 48)
            h (omega arith),
      )
      (omega arith)

pub byte_at-IsByte : (w : Bytes) (i : ℕ) → All IsByte w → IsByte (byte_at w i)
byte_at-IsByte [] i h = omega arith
byte_at-IsByte (x ∷ w) zero h = h.0
byte_at-IsByte (x ∷ w) (suc i) h = byte_at-IsByte w i h.1

-- A read at any byte string, past whose end there are zeros.
pub read_u32_at :
    (w : Bytes)
    → All IsByte w
    → read_u32 w ≡ byte_at w 0 + byte_at w 1 * 2 ^ 8 + byte_at w 2 * 2 ^ 16 + byte_at w 3 * 2 ^ 24
unfolding read_u32
read_u32_at w h =
    or_u32 (byte_at w 0) (byte_at w 1) (byte_at w 2) (byte_at w 3) (byte_at-IsByte w 0 h)
      (byte_at-IsByte w 1 h) (byte_at-IsByte w 2 h)

pub read_u16-le16 : (v : ℕ) (rest : Bytes) → v < 2 ^ 16 → read_u16 (le16 v ++ rest) ≡ v
read_u16-le16 v rest h =
    omega (arith, read_u16_sum (u8 v) (u8 (v / 2 ^ 8)) rest (omega arith) (omega arith))

pub read_u32-le32 : (v : ℕ) (rest : Bytes) → v < 2 ^ 32 → read_u32 (le32 v ++ rest) ≡ v
read_u32-le32 v rest h = omega (
  arith,
  read_u32_sum (u8 (v / 2 ^ 0)) (u8 (v / 2 ^ 8)) (u8 (v / 2 ^ 16)) (u8 (v / 2 ^ 24)) rest
      (omega arith) (omega arith) (omega arith),
)

pub read_u64-le64 : (v : ℕ) (rest : Bytes) → v < 2 ^ 64 → read_u64 (le64 v ++ rest) ≡ v
read_u64-le64 v rest h = omega (
  arith,
  read_u64_sum (u8 (v / 2 ^ 0)) (u8 (v / 2 ^ 8)) (u8 (v / 2 ^ 16)) (u8 (v / 2 ^ 24))
      (u8 (v / 2 ^ 32)) (u8 (v / 2 ^ 40)) (u8 (v / 2 ^ 48)) (u8 (v / 2 ^ 56)) rest (omega arith)
      (omega arith) (omega arith) (omega arith) (omega arith) (omega arith) (omega arith),
)

pub le16-read_u16 :
    (a b : ℕ) (rest : Bytes) → IsByte a → IsByte b → le16 (read_u16 (a ∷ b ∷ rest)) ≡ a ∷ b ∷ []
le16-read_u16 a b rest ha hb = ap le16 (read_u16_sum a b rest ha hb) ∙ ground arith

pub le32-read_u32 :
    (a b c d : ℕ) (rest : Bytes)
    → IsByte a
    → IsByte b
    → IsByte c
    → IsByte d
    → le32 (read_u32 (a ∷ b ∷ c ∷ d ∷ rest)) ≡ a ∷ b ∷ c ∷ d ∷ []
le32-read_u32 a b c d rest ha hb hc hd = ap le32 (read_u32_sum a b c d rest ha hb hc) ∙ ground arith

pub bytes_eq_iff : (xs ys : Bytes) → (bytes_eq xs ys ≡ true) ↔ (xs ≡ ys)
bytes_eq_iff [] [] = (λ _. refl, λ _. refl)
bytes_eq_iff [] (y ∷ ys) = (λ h. cc, λ h. cc)
bytes_eq_iff (x ∷ xs) [] = (λ h. cc, λ h. cc)
bytes_eq_iff (x ∷ xs) (y ∷ ys) =
    (λ h. ground (arith, (bytes_eq_iff xs ys).0), λ h. ground (arith, (bytes_eq_iff xs ys).1))
