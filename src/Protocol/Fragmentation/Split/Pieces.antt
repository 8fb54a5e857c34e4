-- ===== src/Protocol/Fragmentation/Split/Pieces.antt =====
-- The fragments that `Fragmenter::split` of protocol/src/fragmentation.cpp makes.
use remote_bsp.Prelude.{
  ℕ, zero, suc, ◌+◌, ◌-◌, ◌*◌, ◌/◌, ◌^◌, ◌<◌, ◌≤◌, min, ◌≡◌, refl, sym, ap, ap₂, ◌∙◌, Bool, true,
  false, List, [], ◌∷◌, ◌++◌, append-nil, append_assoc, length, length-take, length-drop, take,
  drop, take-append-drop, drop_all, take_all, All, ok, arith,
}
use native.Mathlib.Nat.{div-add-mod', mod-lt}
use native.Mathlib.Decide.{dec_lt}
use remote_bsp.Bytes.{Bytes}
use remote_bsp.Protocol.Packet.{maximum_packet_size}
use remote_bsp.Protocol.Fragmentation.Frame.{
  Fragment, fragment_header_size, fragment_last, has_flag,
}
use remote_bsp.Protocol.Fragmentation.FrameRoundTrip.{IsFragment, frame_of, encode_fragment_lem}
use remote_bsp.Protocol.Fragmentation.Split.{fragment_at, split_from, frame_count, split}

module _ (packet : Bytes) (t capacity count : ℕ) where
  -- The fragments of `n` rounds from `i` on, and their payloads.
  abbrev pub fragments_from : ℕ → ℕ → List Fragment
  fragments_from zero i = []
  fragments_from (suc n) i = fragment_at packet t capacity count i ∷ fragments_from n (i + 1)

abbrev pub frames_of : List Fragment → List Bytes
frames_of [] = []
frames_of (f ∷ fs) = frame_of f ∷ frames_of fs

abbrev pub payloads : List Fragment → Bytes
payloads [] = []
payloads (f ∷ fs) = f.payload ++ payloads fs

zero_of : (q : ℕ) → ¬ (0 < q) → q ≡ 0
zero_of q h = omega arith

zero_times : (c : ℕ) → 0 * c ≡ 0
zero_times c = omega arith

le_mul : (a c : ℕ) → 1 ≤ c → a ≤ a * c
le_mul a c h = grind arith

mul_lt : (a b c : ℕ) → a < b → a * c + c ≤ b * c
mul_lt a b c h = grind arith

abbrev pub is_nil {ℓ} : {A : Type ℓ} → List A → Bool
is_nil [] = true
is_nil (x ∷ xs) = false

-- Fragments of one transfer, numbered from `i` on, of which exactly the last is marked as such.
abbrev pub Chain : ℕ → ℕ → List Fragment → Type 0
Chain t i [] = Unit {0}
Chain t i (f ∷ fs) =
    (f.transfer_id ≡ t)
    × (f.sequence ≡ i)
    × (has_flag f.flags fragment_last ≡ is_nil fs)
    × Chain t (i + 1) fs

zero_right : {count : ℕ} (i : ℕ) → i + 0 ≡ count → i ≡ count
zero_right i h = omega arith

-- What the rounding up of the count means.
pub record CountBounds (capacity size count : ℕ) : Type 0 where
  pub covers : size ≤ count * capacity
  pub tight : count * capacity < size + capacity
  pub small : count ≤ size
  pub positive : 1 ≤ count

pub count_bounds :
    (capacity size : ℕ)
    → 1 ≤ capacity
    → 1 ≤ size
    → CountBounds capacity size (frame_count capacity size)
unfolding frame_count
count_bounds capacity size h k = record {
  covers = covers;
  tight = tight;
  small = small;
  positive = positive;
}
  where
    n : ℕ
    n = size + capacity - 1

    q : ℕ
    q = n / capacity

    covers : size ≤ q * capacity
    covers = omega (arith, div-add-mod' n capacity, mod-lt n {m = capacity} h)

    tight : q * capacity < size + capacity
    tight = omega (arith, div-add-mod' n capacity)

    positive : 1 ≤ q
    positive = elim (dec_lt 0 q) [
      | yes p ↦ p
      | no p ↦ absurd (omega (arith, covers, ap (λ (x : ℕ). x * capacity) (zero_of q p)))
    ]

    small : q ≤ size
    small = elim (dec_lt size q) [
      | yes p ↦ absurd (omega (arith, tight, mul_lt size q capacity p, le_mul size capacity h))
      | no p ↦ omega arith
    ]

module _ {ℓ} {A : Type ℓ} where
  take-min : (n : ℕ) (xs : List A) → take (min n (length xs)) xs ≡ take n xs
  take-min n xs = elim (dec_lt n (length xs)) [
    | yes p ↦ ap (λ k. take k xs) (omega arith)
    | no p ↦
        ap (λ k. take k xs) (omega arith)
        ∙ take_all (length xs) xs (omega arith)
        ∙ sym (take_all n xs (omega arith))
  ]

  drop-add : (m n : ℕ) (xs : List A) → drop (m + n) xs ≡ drop n (drop m xs)
  drop-add zero n xs = ap (λ k. drop k xs) (omega arith)
  drop-add (suc m) n [] = drop_all (suc m + n) [] (omega arith) ∙ sym (drop_all n [] (omega arith))
  drop-add (suc m) n (x ∷ xs) = ap (λ k. drop k (x ∷ xs)) suc_out ∙ drop-add m n xs
    where
      suc_out : suc m + n ≡ suc (m + n)
      suc_out = omega arith

module _ (packet : Bytes) (t capacity count mtu : ℕ)
    (b : CountBounds capacity (length packet) count) where
  -- Each round but those past the end has something to send.
  round_within : (i : ℕ) → i < count → i * capacity < length packet
  round_within i h = omega (arith, b.tight, mul_lt i count capacity h)

  fragment_at-IsFragment :
      (i : ℕ)
      → i < count
      → count < 2 ^ 16
      → t < 2 ^ 16
      → mtu ≡ capacity + 5
      → 1 ≤ capacity
      → capacity ≤ 63
      → IsFragment (fragment_at packet t capacity count i) mtu
  unfolding fragment_at
  fragment_at-IsFragment i h hc ht hm h1 h2 = ground (
    arith,
    round_within i h,
    length-take (min capacity (length packet - i * capacity)) (drop (i * capacity) packet),
    length-drop (i * capacity) packet,
  )

  payloads_from :
      (n i : ℕ)
      → i + n ≡ count
      → payloads (fragments_from packet t capacity count n i) ≡ drop (i * capacity) packet
  unfolding fragment_at
  payloads_from zero i h = sym (
      drop_all (i * capacity) packet
        (omega (arith, b.covers, ap (λ (k : ℕ). k * capacity) (zero_right i h))))
  payloads_from (suc n) i h =
      ap₂ ◌++◌
        (ap (λ k. take (min capacity k) rest) (sym (length-drop (i * capacity) packet))
          ∙ take-min capacity rest)
        (payloads_from n (i + 1) (omega arith)
          ∙ ap (λ k. drop k packet) next_offset
          ∙ drop-add (i * capacity) capacity packet)
      ∙ take-append-drop capacity rest
    where
      rest : Bytes
      rest = drop (i * capacity) packet

      next_offset : (i + 1) * capacity ≡ i * capacity + capacity
      next_offset = omega arith

  module _ (hc : count < 2 ^ 16) (ht : t < 2 ^ 16) (hm : mtu ≡ capacity + 5) (h1 : 1 ≤ capacity)
      (h2 : capacity ≤ 63) where
    fragments-IsFragment :
        (n i : ℕ)
        → i + n ≡ count
        → All (λ f. IsFragment f mtu) (fragments_from packet t capacity count n i)
    fragments-IsFragment zero i h = tt
    fragments-IsFragment (suc n) i h = (
      fragment_at-IsFragment i (omega arith) hc ht hm h1 h2,
      fragments-IsFragment n (i + 1) (omega arith),
    )

    fragments-Chain :
        (n i : ℕ) → i + n ≡ count → Chain t i (fragments_from packet t capacity count n i)
    unfolding fragment_at
    fragments-Chain zero i h = tt
    fragments-Chain (suc zero) i h = ground arith
    fragments-Chain (suc (suc n)) i h =
        (refl, omega arith, ground arith, fragments-Chain (suc n) (i + 1) (omega arith))

    split_from_lem :
        (n i : ℕ) (frames : List Bytes)
        → i + n ≡ count
        → split_from mtu packet t capacity count n i frames
          ≡ ok (frames ++ frames_of (fragments_from packet t capacity count n i))
    unfolding split_from
    split_from_lem zero i frames h = ap ok (sym (append-nil frames))
    split_from_lem (suc n) i frames h =
        rw
          (encode_fragment_lem (fragment_at packet t capacity count i) mtu
            (fragment_at-IsFragment i (omega arith) hc ht hm h1 h2))
          (split_from_lem n (i + 1) (frames ++ (frame ∷ [])) (omega arith)
            ∙ ap ok (
                append_assoc frames (frame ∷ [])
                  (frames_of (fragments_from packet t capacity count n (i + 1)))))
      where
        frame : Bytes
        frame = frame_of (fragment_at packet t capacity count i)

-- With an MTU from 6 to 68, a packet of 1 to 2048 bytes and a transfer id of 16 bits, `split` returns
-- the frames of a list of fragments, each of which meets the checks of `encode_fragment`; they are
-- numbered from 0 on, exactly the last is marked as the last, and their payloads in order make up the
-- packet.
pub split-payloads :
    (mtu : ℕ) (packet : Bytes) (t : ℕ)
    → fragment_header_size < mtu
    → mtu ≤ 68
    → 1 ≤ length packet
    → length packet ≤ maximum_packet_size
    → t < 2 ^ 16
    → (fs : List Fragment) × (split mtu packet t ≡ ok (frames_of fs))
      × All (λ f. IsFragment f mtu) fs
      × Chain t 0 fs
      × (payloads fs ≡ packet)
unfolding split
split-payloads mtu packet t h1 h2 h3 h4 ht = (
  fragments_from packet t capacity count count 0,
  ground (arith, b, loop),
  fragments-IsFragment packet t capacity count mtu b hc ht hm one few count 0 (omega arith),
  fragments-Chain packet t capacity count mtu b hc ht hm one few count 0 (omega arith),
  payloads_from packet t capacity count mtu b count 0 (omega arith)
      ∙ ap (λ k. drop k packet) (zero_times capacity),
)
  where
    capacity : ℕ
    capacity = mtu - fragment_header_size

    count : ℕ
    count = frame_count capacity (length packet)

    one : 1 ≤ capacity
    one = omega arith

    few : capacity ≤ 63
    few = omega arith

    hm : mtu ≡ capacity + 5
    hm = omega arith

    b : CountBounds capacity (length packet) count
    b = count_bounds capacity (length packet) one h3

    hc : count < 2 ^ 16
    hc = let small : count ≤ length packet = b.small in omega arith

    loop :
        split_from mtu packet t capacity count count 0 []
        ≡ ok (frames_of (fragments_from packet t capacity count count 0))
    loop = split_from_lem packet t capacity count mtu b hc ht hm one few count 0 [] (omega arith)
