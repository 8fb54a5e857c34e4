-- ===== src/Prelude/Bits.antt =====
-- The bit operations of C at variables, from one equation for the lowest digit.
use Prim.Native.Nat.{
  ℕ, zero, suc, ◌+◌, ◌*◌, ◌/◌, ◌%◌, ◌^◌, ◌≤◌, ◌<◌, max, min, bit_and, bit_or, bit_xor, digits,
  bitwise, bit_and-bitwise, bit_or-bitwise, bit_xor-bitwise, differ,
}
use mathlib.Core.Path.{◌≡◌, refl, ap, sym, ◌∙◌}
use native.Mathlib.Nat.{pow-suc, div-div-eq-div-mul}
use native.Mathlib.Omega.{arith}

-- The native operations mean `bitwise`, which takes its first number for the fuel of `digits`: any
-- fuel as large as the number gives the same.
module _ (base : ℕ → ℕ) (digit : ℕ → ℕ → ℕ) where
  digits_at_zero : (fuel y : ℕ) → digits base digit fuel 0 y ≡ base y
  digits_at_zero zero y = refl
  digits_at_zero (suc fuel) y = refl

  digits_agree : (x y s t : ℕ) → x ≤ s → x ≤ t → digits base digit s x y ≡ digits base digit t x y
  digits_agree zero y s t hs ht = digits_at_zero s y ∙ sym (digits_at_zero t y)
  digits_agree (suc x) y zero t hs ht = absurd (omega arith)
  digits_agree (suc x) y (suc s) zero hs ht = absurd (omega arith)
  digits_agree (suc x) y (suc s) (suc t) hs ht =
      ap (λ h. h * 2 + digit (suc x % 2) (y % 2))
        (digits_agree (suc x / 2) (y / 2) s t (omega arith) (omega arith))

  -- An operation whose value at 0 follows the same equation is made of its lowest digit and the rest.
  bitwise_step :
      ((y : ℕ) → base y ≡ base (y / 2) * 2 + digit 0 (y % 2))
      → (x y : ℕ)
      → bitwise base digit x y ≡ bitwise base digit (x / 2) (y / 2) * 2 + digit (x % 2) (y % 2)
  bitwise_step at_zero zero y = at_zero y
  bitwise_step at_zero (suc x) y =
      ap (λ h. h * 2 + digit (suc x % 2) (y % 2))
        (digits_agree (suc x / 2) (y / 2) x (suc x / 2) (omega arith) (omega arith))

bit_or_step : (a b : ℕ) → bit_or a b ≡ bit_or (a / 2) (b / 2) * 2 + max (a % 2) (b % 2)
bit_or_step a b = simp bit_or-bitwise (bitwise_step (λ y. y) max (λ y. omega arith) a b)

bit_and_step : (a b : ℕ) → bit_and a b ≡ bit_and (a / 2) (b / 2) * 2 + min (a % 2) (b % 2)
bit_and_step a b = simp bit_and-bitwise (bitwise_step (λ y. 0) min (λ y. omega arith) a b)

differ-eq-mod : (a b : ℕ) → a < 2 → b < 2 → differ a b ≡ (a + b) % 2
differ-eq-mod zero b p q = omega arith
differ-eq-mod (suc zero) zero p q = refl
differ-eq-mod (suc zero) (suc zero) p q = refl
differ-eq-mod (suc zero) (suc (suc b)) p q = absurd (omega arith)
differ-eq-mod (suc (suc a)) b p q = absurd (omega arith)

pub bit_xor_step : (a b : ℕ) → bit_xor a b ≡ bit_xor (a / 2) (b / 2) * 2 + (a + b) % 2
bit_xor_step a b = omega (arith, lowest, differ-eq-mod (a % 2) (b % 2) (omega arith) (omega arith))
  where
    at_zero : (y : ℕ) → y ≡ y / 2 * 2 + differ 0 (y % 2)
    at_zero y = omega (arith, differ-eq-mod 0 (y % 2) (omega arith) (omega arith))

    lowest : bit_xor a b ≡ bit_xor (a / 2) (b / 2) * 2 + differ (a % 2) (b % 2)
    lowest = simp bit_xor-bitwise (bitwise_step (λ y. y) differ at_zero a b)

bit_xor-half : (a b : ℕ) → bit_xor a b / 2 ≡ bit_xor (a / 2) (b / 2)
bit_xor-half a b = omega (arith, bit_xor_step a b)

zero-bit_xor : (b : ℕ) → bit_xor 0 b ≡ b
zero-bit_xor b = bit_xor-bitwise 0 b

-- Undoing an exclusive or. The fuel is the sum of the two numbers.
xor_cancel_fuel : (n a b : ℕ) → a + b ≤ n → bit_xor (bit_xor a b) b ≡ a
xor_cancel_fuel zero zero zero h = refl
xor_cancel_fuel zero zero (suc b) h = absurd (omega arith)
xor_cancel_fuel zero (suc a) b h = absurd (omega arith)
xor_cancel_fuel (suc n) zero zero h = refl
xor_cancel_fuel (suc n) a b h = omega (
  arith,
  bit_xor_step (bit_xor a b) b,
  bit_xor_step a b,
  ap (λ (t : ℕ). bit_xor t (b / 2)) (bit_xor-half a b),
  xor_cancel_fuel n (a / 2) (b / 2) (omega arith),
)

pub xor_cancel : (a b : ℕ) → bit_xor (bit_xor a b) b ≡ a
xor_cancel a b = xor_cancel_fuel (a + b) a b (omega arith)

xor_comm_fuel : (n a b : ℕ) → a + b ≤ n → bit_xor a b ≡ bit_xor b a
xor_comm_fuel zero zero zero h = refl
xor_comm_fuel zero zero (suc b) h = absurd (omega arith)
xor_comm_fuel zero (suc a) b h = absurd (omega arith)
xor_comm_fuel (suc n) zero zero h = refl
xor_comm_fuel (suc n) a b h =
    omega (arith, bit_xor_step a b, bit_xor_step b a, xor_comm_fuel n (a / 2) (b / 2) (omega arith))

pub bit_xor_comm : (a b : ℕ) → bit_xor a b ≡ bit_xor b a
bit_xor_comm a b = xor_comm_fuel (a + b) a b (omega arith)

pub bit_xor-lt : (k a b : ℕ) → a < 2 ^ k → b < 2 ^ k → bit_xor a b < 2 ^ k
bit_xor-lt zero zero zero p q = omega arith
bit_xor-lt zero (suc a) b p q = absurd (omega arith)
bit_xor-lt zero zero (suc b) p q = absurd (omega arith)
bit_xor-lt (suc k) a b p q = omega (
  arith,
  bit_xor_step a b,
  pow-suc 2 k,
  bit_xor-lt k (a / 2) (b / 2) (omega (arith, pow-suc 2 k)) (omega (arith, pow-suc 2 k)),
)

div_pow_suc : (k x : ℕ) → x / 2 ^ suc k ≡ x / 2 / 2 ^ k
div_pow_suc k x =
    ap (λ (t : ℕ). x / t) (omega (arith, pow-suc 2 k)) ∙ sym (div-div-eq-div-mul x 2 (2 ^ k))

-- Above the digits of `a` the digits of `b` come through.
pub bit_xor-high : (k a b : ℕ) → a < 2 ^ k → bit_xor a b / 2 ^ k ≡ b / 2 ^ k
bit_xor-high zero zero b p = ap (λ t. t / 1) (zero-bit_xor b)
bit_xor-high zero (suc a) b p = absurd (omega arith)
bit_xor-high (suc k) a b p =
    div_pow_suc k (bit_xor a b)
    ∙ ap (λ t. t / 2 ^ k) (bit_xor-half a b)
    ∙ bit_xor-high k (a / 2) (b / 2) (omega (arith, pow-suc 2 k))
    ∙ sym (div_pow_suc k b)

and_zero_fuel : (fuel x : ℕ) → x ≤ fuel → bit_and x 0 ≡ 0
and_zero_fuel zero zero small = refl
and_zero_fuel zero (suc x) small = absurd (omega arith)
and_zero_fuel (suc fuel) zero small = refl
and_zero_fuel (suc fuel) (suc x) small =
    omega (arith, and_zero_fuel fuel (suc x / 2) (omega arith), bit_and_step (suc x) 0)

-- The lowest bit of a number.
pub bit_and-one : (x : ℕ) → bit_and x 1 ≡ x % 2
bit_and-one x = omega (arith, and_zero_fuel x (x / 2) (omega arith), bit_and_step x 1)

bit_or-zero : (b : ℕ) → bit_or 0 b ≡ b
bit_or-zero b = bit_or-bitwise 0 b

-- `r | (q << k)` is a sum when `r` fits `k` bits.
pub bit_or_fields : (k r q : ℕ) → r < 2 ^ k → bit_or r (q * 2 ^ k) ≡ r + q * 2 ^ k
bit_or_fields zero zero q h = bit_or-bitwise 0 (q * 1) ∙ omega arith
bit_or_fields zero (suc r) q h = absurd (omega arith)
bit_or_fields (suc k) r q h = omega (
  arith,
  bit_or_step r (q * 2 ^ suc k),
  ap (λ (t : ℕ). q * t) (pow-suc 2 k),
  ap (λ (t : ℕ). bit_or (r / 2) t) (half k q),
  bit_or_fields k (r / 2) q (omega (arith, pow-suc 2 k)),
)
  where
    half : (k q : ℕ) → q * 2 ^ suc k / 2 ≡ q * 2 ^ k
    half k q = omega (arith, ap (λ (t : ℕ). q * t) (pow-suc 2 k))

or_comm_fuel : (n a b : ℕ) → a + b ≤ n → bit_or a b ≡ bit_or b a
or_comm_fuel zero zero zero h = refl
or_comm_fuel zero (suc a) b h = absurd (omega arith)
or_comm_fuel zero zero (suc b) h = absurd (omega arith)
or_comm_fuel (suc n) zero zero h = refl
or_comm_fuel (suc n) a b h =
    omega (arith, bit_or_step a b, bit_or_step b a, or_comm_fuel n (a / 2) (b / 2) (omega arith))

pub bit_or_comm : (a b : ℕ) → bit_or a b ≡ bit_or b a
bit_or_comm a b = or_comm_fuel (a + b) a b (omega arith)
