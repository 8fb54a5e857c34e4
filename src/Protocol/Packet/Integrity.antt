-- ===== src/Protocol/Packet/Integrity.antt =====
-- `decode` of protocol/src/packet.cpp on a packet with one damaged byte.
use remote_bsp.Prelude.{
  ℕ, suc, zero, ◌-◌, ◌≤◌, ◌<◌, ◌≡◌, ◌≢◌, refl, ap, ap₂, subst, sym, ◌∙◌, All, List, [], ◌∷◌, ◌++◌,
  append_assoc, length, length-drop, take, drop, ok, arith, All-take, All-drop, All-append,
}
use native.Mathlib.Decide.{dec_lt}
use remote_bsp.Bytes.{Bytes, IsByte, read_u32}
use remote_bsp.Bytes.Laws.{read_u32_at}
use remote_bsp.Protocol.Crc32.{crc32}
use remote_bsp.Protocol.Crc32.Detect.{crc32-same, replace-IsByte}
use remote_bsp.Protocol.Packet.{Packet, decode}

-- Where an element stands before the cut, and where it stands behind it.
module _ {ℓ} {A : Type ℓ} where
  take_before :
      (n : ℕ) (xs : List A) (a : A) (ys : List A)
      → length xs < n
      → take n (xs ++ a ∷ ys) ≡ xs ++ a ∷ take (n - length xs - 1) ys
  take_before zero xs a ys h = absurd (omega arith)
  take_before (suc n) [] a ys h = ap (λ k. a ∷ take k ys) (omega arith)
  take_before (suc n) (x ∷ xs) a ys h =
      ap (◌∷◌ x) (take_before n xs a ys (omega arith) ∙ ap (λ k. xs ++ a ∷ take k ys) (omega arith))

  drop_before :
      (n : ℕ) (xs : List A) (a : A) (ys : List A)
      → length xs < n
      → drop n (xs ++ a ∷ ys) ≡ drop (n - length xs - 1) ys
  drop_before zero xs a ys h = absurd (omega arith)
  drop_before (suc n) [] a ys h = ap (λ k. drop k ys) (omega arith)
  drop_before (suc n) (x ∷ xs) a ys h =
      drop_before n xs a ys (omega arith) ∙ ap (λ k. drop k ys) (omega arith)

  take_behind : (n : ℕ) (xs zs : List A) → n ≤ length xs → take n (xs ++ zs) ≡ take n xs
  take_behind zero xs zs h = refl
  take_behind (suc n) [] zs h = absurd (omega arith)
  take_behind (suc n) (x ∷ xs) zs h = ap (◌∷◌ x) (take_behind n xs zs (omega arith))

  drop_behind : (n : ℕ) (xs zs : List A) → n ≤ length xs → drop n (xs ++ zs) ≡ drop n xs ++ zs
  drop_behind zero xs zs h = refl
  drop_behind (suc n) [] zs h = absurd (omega arith)
  drop_behind (suc n) (x ∷ xs) zs h = drop_behind n xs zs (omega arith)

-- What the checksum covers, and the field that holds it.
abbrev covered : Bytes → Bytes
covered w = take 20 w ++ drop 24 w

decode-covered :
    (w : Bytes) {q : Packet} → decode w ≡ ok q → crc32 (covered w) ≡ read_u32 (drop 20 w)
unfolding decode
decode-covered w e = ground arith

-- The four bytes of the checksum field determine it.
read_u32-detects :
    (u : Bytes) (a b : ℕ) (v : Bytes)
    → length u < 4
    → All IsByte (u ++ a ∷ v)
    → All IsByte (u ++ b ∷ v)
    → read_u32 (u ++ a ∷ v) ≡ read_u32 (u ++ b ∷ v)
    → a ≡ b
read_u32-detects [] a b v l h k e = omega (arith, read_u32_at (a ∷ v) h, read_u32_at (b ∷ v) k)
read_u32-detects (x ∷ []) a b v l h k e =
    omega (arith, h.0, h.1.0, k.1.0, read_u32_at (x ∷ a ∷ v) h, read_u32_at (x ∷ b ∷ v) k)
read_u32-detects (x ∷ y ∷ []) a b v l h k e =
    omega (arith, read_u32_at (x ∷ y ∷ a ∷ v) h, read_u32_at (x ∷ y ∷ b ∷ v) k)
read_u32-detects (x ∷ y ∷ z ∷ []) a b v l h k e =
    omega (arith, read_u32_at (x ∷ y ∷ z ∷ a ∷ v) h, read_u32_at (x ∷ y ∷ z ∷ b ∷ v) k)
read_u32-detects (x ∷ y ∷ z ∷ t ∷ u) a b v l h k e = absurd (omega arith)

read_u32_front : (u z : Bytes) → 4 ≤ length u → read_u32 (u ++ z) ≡ read_u32 u
unfolding read_u32
read_u32_front (a ∷ b ∷ c ∷ d ∷ u) z h = refl
read_u32_front u z h = absurd (omega arith)

covered-IsByte : (w : Bytes) → All IsByte w → All IsByte (covered w)
covered-IsByte w h =
    All-append IsByte (take 20 w) (drop 24 w) (All-take IsByte 20 w h) (All-drop IsByte 24 w h)

-- The damaged byte in the part that the checksum covers, or in the checksum.
module _ (xs : Bytes) (a b : ℕ) (ys : Bytes) (h : All IsByte (xs ++ a ∷ ys)) (hb : IsByte b) where
  same_sum :
      (us vs : Bytes)
      → ((c : ℕ) → covered (xs ++ c ∷ ys) ≡ us ++ c ∷ vs)
      → ((c : ℕ) → read_u32 (drop 20 (xs ++ c ∷ ys)) ≡ read_u32 (drop 20 (xs ++ a ∷ ys)))
      → {p q : Packet} → decode (xs ++ a ∷ ys) ≡ ok p
      → decode (xs ++ b ∷ ys) ≡ ok q
      → a ≡ b
  same_sum us vs inside field e f =
      crc32-same us a b vs (subst (All IsByte) (inside a) (covered-IsByte (xs ++ a ∷ ys) h)) hb (
        ap crc32 (sym (inside a))
        ∙ decode-covered (xs ++ a ∷ ys) e
        ∙ sym (field b)
        ∙ sym (decode-covered (xs ++ b ∷ ys) f)
        ∙ ap crc32 (inside b))

  in_header :
      length xs < 20
      → {p q : Packet} → decode (xs ++ a ∷ ys) ≡ ok p
      → decode (xs ++ b ∷ ys) ≡ ok q
      → a ≡ b
  in_header l =
      same_sum xs (take (20 - length xs - 1) ys ++ drop (24 - length xs - 1) ys)
        (λ c.
          ap₂ ◌++◌ (take_before 20 xs c ys l) (drop_before 24 xs c ys (omega arith))
          ∙ append_assoc xs (c ∷ _) _)
        (λ c. ap read_u32 (drop_before 20 xs c ys l ∙ sym (drop_before 20 xs a ys l)))

  in_payload :
      24 ≤ length xs
      → {p q : Packet} → decode (xs ++ a ∷ ys) ≡ ok p
      → decode (xs ++ b ∷ ys) ≡ ok q
      → a ≡ b
  in_payload l =
      same_sum (take 20 xs ++ drop 24 xs) ys
        (λ c.
          ap₂ ◌++◌ (take_behind 20 xs (c ∷ ys) (omega arith)) (drop_behind 24 xs (c ∷ ys) l)
          ∙ sym (append_assoc (take 20 xs) (drop 24 xs) (c ∷ ys)))
        (λ c. field c ∙ sym (field a))
    where
      field : (c : ℕ) → read_u32 (drop 20 (xs ++ c ∷ ys)) ≡ read_u32 (drop 20 xs)
      field c =
          ap read_u32 (drop_behind 20 xs (c ∷ ys) (omega arith))
          ∙ read_u32_front (drop 20 xs) (c ∷ ys) (omega (arith, length-drop 20 xs))

  in_checksum :
      20 ≤ length xs
      → length xs < 24
      → {p q : Packet} → decode (xs ++ a ∷ ys) ≡ ok p
      → decode (xs ++ b ∷ ys) ≡ ok q
      → a ≡ b
  in_checksum l m e f =
      read_u32-detects (drop 20 xs) a b ys (omega (arith, length-drop 20 xs)) (bytes a h)
        (bytes b (replace-IsByte xs a b ys h hb))
        (field a
          ∙ sym (decode-covered (xs ++ a ∷ ys) e)
          ∙ ap crc32 (inside a ∙ sym (inside b))
          ∙ decode-covered (xs ++ b ∷ ys) f
          ∙ sym (field b))
    where
      field : (c : ℕ) → read_u32 (drop 20 xs ++ c ∷ ys) ≡ read_u32 (drop 20 (xs ++ c ∷ ys))
      field c = ap read_u32 (sym (drop_behind 20 xs (c ∷ ys) l))

      bytes : (c : ℕ) → All IsByte (xs ++ c ∷ ys) → All IsByte (drop 20 xs ++ c ∷ ys)
      bytes c k =
          subst (All IsByte) (drop_behind 20 xs (c ∷ ys) l) (All-drop IsByte 20 (xs ++ c ∷ ys) k)

      inside : (c : ℕ) → covered (xs ++ c ∷ ys) ≡ take 20 xs ++ drop (24 - length xs - 1) ys
      inside c = ap₂ ◌++◌ (take_behind 20 xs (c ∷ ys) l) (drop_before 24 xs c ys m)

-- Where `decode` accepts a byte string, it accepts no byte string that differs from it in exactly
-- one byte, be it of the header, the checksum or the payload.
pub decode-detects :
    (xs : Bytes) (a b : ℕ) (ys : Bytes) (p q : Packet)
    → All IsByte (xs ++ a ∷ ys)
    → IsByte b
    → a ≢ b
    → decode (xs ++ a ∷ ys) ≡ ok p
    → decode (xs ++ b ∷ ys) ≢ ok q
decode-detects xs a b ys p q h hb ne e f = elim (dec_lt (length xs) 20) [
  | yes l ↦ ne (in_header xs a b ys h hb l e f)
  | no l ↦ elim (dec_lt (length xs) 24) [
    | yes m ↦ ne (in_checksum xs a b ys h hb (omega arith) m e f)
    | no m ↦ ne (in_payload xs a b ys h hb (omega arith) e f)
  ]
]
