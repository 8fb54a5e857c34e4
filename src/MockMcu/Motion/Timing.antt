-- ===== src/MockMcu/Motion/Timing.antt =====
-- The arithmetic of mock_mcu/src/motion_executor.cpp: step counts, edge times and the step rate.
use remote_bsp.Prelude.{
  ℕ, ◌↔◌, ◌+◌, ◌*◌, ◌/◌, ◌%◌, ◌^◌, ◌<◌, ◌≤◌, ◌≡◌, sym, ap, ◌∙◌, ltb, leb, ◌==◌, Bool, true,
  if◌then◌else◌, arith, inl, inr, Bool-cases, leb→le, not_leb→lt,
}
use native.Mathlib.Nat.{
  add-mul, mul_assoc, mul_comm, mul-add-div, div-add-mod, mul-le-mul, mul-le-mul_left,
  div-le_of_le-mul, mod-lt, le-div_iff_mul-le, div-lt_iff_lt-mul,
}
use remote_bsp.Prelude.Int.{ℤ, pos, negsuc}
use remote_bsp.MockMcu.Motion.{u64}

unfoldable pub absolute_steps : ℤ → ℕ
absolute_steps (pos n) = n
absolute_steps (negsuc n) = n + 1

unfoldable pub interpolate_offset : ℕ → ℕ → ℕ → ℕ
interpolate_offset span index denominator =
    if denominator == 0
    then 0
    else u64 (u64 (span / denominator * index) + u64 (span % denominator * index) / denominator)

abbrev pub nanoseconds_per_second : ℕ
nanoseconds_per_second = 1000000000

unfoldable pub rate_allows : ℕ → ℕ → ℕ → Bool
rate_allows step_count duration_ns maximum_step_rate_hz =
    let whole_seconds = duration_ns / nanoseconds_per_second in
    let remaining_ns = duration_ns % nanoseconds_per_second in
    if ltb (step_count / maximum_step_rate_hz) whole_seconds
    then true
    else leb step_count (
        u64 (
          u64 (whole_seconds * maximum_step_rate_hz)
          + u64 (remaining_ns * maximum_step_rate_hz) / nanoseconds_per_second))

-- The quotient of a product, by the quotient and the rest of its first factor.
mul-div_parts : (x k d : ℕ) → 1 ≤ d → x * k / d ≡ x / d * k + x % d * k / d
mul-div_parts x k d h =
    ap (λ t. t * k / d) (sym (div-add-mod x d))
    ∙ ap (λ t. t / d)
        (add-mul (d * (x / d)) (x % d) k ∙ ap (λ t. t + x % d * k) (mul_assoc d (x / d) k))
    ∙ mul-add-div h (x / d * k) (x % d * k)

small_product : (a b : ℕ) → a ≤ 0xFFFFFFFF → b ≤ 0xFFFFFFFF → a * b < 2 ^ 64
small_product a b ha hb = omega (arith, mul-le-mul ha hb)

-- The offset that is computed without a product of the whole span is the exact one, rounded down:
-- for a span of 64 bits and an index up to a denominator of 32 bits that is not 0 no step wraps.
pub interpolate_offset-exact :
    (span index denominator : ℕ)
    → span < 2 ^ 64
    → 1 ≤ denominator
    → denominator < 2 ^ 32
    → index ≤ denominator
    → interpolate_offset span index denominator ≡ span * index / denominator
unfolding interpolate_offset
interpolate_offset-exact span index d h1 h2 h3 h4 =
    ground (arith, small_quotient, small_rest, whole, split)
  where
    split : span * index / d ≡ span / d * index + span % d * index / d
    split = mul-div_parts span index d h2

    product : span * index ≤ d * span
    product = omega (arith, mul-le-mul_left span h4, mul_comm span d)

    bounded : span * index / d ≤ span
    bounded = div-le_of_le-mul d product

    whole : span / d * index + span % d * index / d ≤ span
    whole = omega (arith, split, bounded)

    small_quotient : span / d * index < 2 ^ 64
    small_quotient = omega (arith, whole)

    small_rest : span % d * index < 2 ^ 64
    small_rest = small_product (span % d) index (omega (arith, mod-lt span h2)) (omega arith)

-- The rate test, which avoids the product of the duration and the rate, is the exact comparison: for
-- counts and rates of 32 bits, a rate that is not 0 and a duration of 64 bits, it holds just if the
-- steps per second do not exceed the rate.
pub rate_allows-exact :
    (step_count duration_ns rate : ℕ)
    → step_count < 2 ^ 32
    → duration_ns < 2 ^ 64
    → 1 ≤ rate
    → rate < 2 ^ 32
    → rate_allows step_count duration_ns rate
      ≡ leb (step_count * nanoseconds_per_second) (duration_ns * rate)
unfolding rate_allows
rate_allows-exact n t r h1 h2 h3 h4 = elim (Bool-cases (leb whole (n / r))) [
  | inl late ↦ ground (arith, split, exact, small_part, small_whole (leb→le whole (n / r) late))
  | inr soon ↦ ground (arith, split, exact, early (not_leb→lt whole (n / r) soon))
]
  where
    whole : ℕ
    whole = t / nanoseconds_per_second

    part : ℕ
    part = t % nanoseconds_per_second

    split : t * r / nanoseconds_per_second ≡ whole * r + part * r / nanoseconds_per_second
    split = mul-div_parts t r nanoseconds_per_second (omega arith)

    exact : (n ≤ t * r / nanoseconds_per_second) ↔ (n * nanoseconds_per_second ≤ t * r)
    exact = le-div_iff_mul-le (omega arith)

    early : n / r < whole → n < whole * r
    early h = (div-lt_iff_lt-mul h3).0 h

    small_part : part * r < 2 ^ 64
    small_part = small_product part r (omega arith) (omega arith)

    small_whole : whole ≤ n / r → whole * r ≤ n
    small_whole h = (le-div_iff_mul-le h3).0 h
