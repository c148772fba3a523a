-- ===== src/Pricing/Rounding.antt =====
-- `Decimal.quantize(…, ROUND_HALF_UP)` (money and unit of backend/api/quotes/pricing_ops.py) as the
-- rounding of a fraction. A tie goes away from zero.
use cbc_new.Prelude.{ℕ, zero, suc, ◌+◌, ◌*◌, ◌/◌, ◌^◌, ◌≤◌, ◌<◌, ◌≡◌, refl, arith}
use cbc_new.Prelude.Int.{ℤ, pos, negsuc, ◌+ℤ◌, ◌*ℤ◌, pos_part, neg_part}

unfoldable pub half_up : ℕ → ℕ → ℕ
half_up n d = (2 * n + d) / (2 * d)

abbrev pub neg : ℕ → ℤ
neg zero = pos 0
neg (suc n) = negsuc n

-- The fraction `n / d`, rounded to an integer.
unfoldable pub round_half_up : ℤ → ℕ → ℤ
unfolding half_up
round_half_up (pos n) d = pos (half_up n d)
round_half_up (negsuc n) d = neg (half_up (suc n) d)

-- A decimal number: `coefficient / 10 ^ places`.
pub record Decimal : Type 0 where
  pub coefficient : ℤ
  pub places : ℕ

unfoldable pub add_decimal : Decimal → Decimal → Decimal
add_decimal a b = record {
  coefficient = a.coefficient *ℤ pos (10 ^ b.places) +ℤ b.coefficient *ℤ pos (10 ^ a.places);
  places = a.places + b.places;
}

-- `money(value)`, in cents.
unfoldable pub money : Decimal → ℤ
unfolding round_half_up
money d = round_half_up (d.coefficient *ℤ pos 100) (10 ^ d.places)

-- `unit(value)`, in ten-thousandths of a dollar.
unfoldable pub unit : Decimal → ℤ
unfolding round_half_up
unit d = round_half_up (d.coefficient *ℤ pos 10_000) (10 ^ d.places)

-- `money(value)` and `unit(value)` of an amount with `extra` places too many.
unfoldable pub shed : ℕ → ℤ → ℤ
unfolding round_half_up
shed extra amount = round_half_up amount (10 ^ extra)

-- Twice the error of the rounded fraction is at most the denominator, and a tie goes up.
pub half_up_nearest :
    (n d : ℕ) → 0 < d → (2 * (half_up n d * d) ≤ 2 * n + d) × (2 * n < 2 * (half_up n d * d) + d)
unfolding half_up
half_up_nearest n d h = grind arith

-- The magnitude of an integer.
abbrev pub magnitude : ℤ → ℕ
magnitude (pos n) = n
magnitude (negsuc n) = suc n

-- `q` is the integer nearest to `n / d`, of the two nearest ones the one farther from zero, and its
-- sign is not opposite to that of `n`.
pub record IsNearest (q n : ℤ) (d : ℕ) : Type 0 where
  pub low : 2 * (magnitude q * d) ≤ 2 * magnitude n + d
  pub high : 2 * magnitude n < 2 * (magnitude q * d) + d
  pub not_negative : pos_part n * neg_part q ≡ 0
  pub not_positive : neg_part n * pos_part q ≡ 0

magnitude-neg : (k : ℕ) → magnitude (neg k) ≡ k
magnitude-neg zero = refl
magnitude-neg (suc k) = refl

pos_part-neg : (k : ℕ) → pos_part (neg k) ≡ 0
pos_part-neg zero = refl
pos_part-neg (suc k) = refl

pub round_half_up-IsNearest : (n : ℤ) (d : ℕ) → 0 < d → IsNearest (round_half_up n d) n d
unfolding round_half_up
round_half_up-IsNearest (pos n) d h =
    let (low, high) = half_up_nearest n d h in
    record {
      low = omega arith;
      high = omega arith;
      not_negative = omega arith;
      not_positive = omega arith;
    }
round_half_up-IsNearest (negsuc n) d h =
    let (low, high) = half_up_nearest (suc n) d h in
    let size = magnitude-neg (half_up (suc n) d) in
    record {
      low = rw size low;
      high = rw size high;
      not_negative = omega arith;
      not_positive = rw (pos_part-neg (half_up (suc n) d)) (omega arith);
    }

half_up-one : (n : ℕ) → half_up n 1 ≡ n
unfolding half_up
half_up-one n = omega arith

pub shed-zero : (a : ℤ) → shed 0 a ≡ a
unfolding shed round_half_up
shed-zero (pos n) = rw (half_up-one n)
shed-zero (negsuc n) = rw (half_up-one (suc n))
