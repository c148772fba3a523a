-- ===== src/Prelude/Float.antt =====
-- Floating-point numbers as an interface. The program's scores and confidences are Python floats,
-- which the language here does not have: a value of the interface gives a carrier with the
-- operations that the program calls, and a value of `IsOrdered` the facts of IEEE arithmetic
-- without NaN that its comparisons rely on.
use Prim.Native.Nat.{ℕ, ◌+◌, ◌*◌, ◌/◌, ◌≤◌}
use mathlib.Core.Path.{◌≡◌}
use mathlib.Core.Bool.{Bool, true, false}
use mathlib.Core.List.{List, [], ◌∷◌}
use native.Mathlib.Nat.{le_refl, mul-le-mul}
use native.Mathlib.Omega.{arith}
use cbc_new.Prelude.Tests.{ltb, if◌then◌else◌}

pub record Float : Type 1 where
  pub F : Type 0
  -- `decimal n` is the float nearest to n / 10000, as the literals of the source are written.
  pub decimal : ℕ → F
  pub add : F → F → F
  pub mul : F → F → F
  pub div : F → F → F
  -- `n / d` on integers.
  pub ratio : ℕ → ℕ → F
  -- `round(x, 4)`
  pub round4 : F → F
  -- `int(round(x))` of a number that is not negative.
  pub round_int : F → ℕ
  pub lt : F → F → Bool

-- `a <= b` of numbers that are not NaN.
abbrev pub Le : (fl : Float) → fl.F → fl.F → Type 0
Le fl a b = fl.lt b a ≡ false

pub record IsOrdered (fl : Float) : Type 0 where
  pub le_refl : (a : fl.F) → Le fl a a
  pub le_trans : (a b c : fl.F) → Le fl a b → Le fl b c → Le fl a c
  pub lt_asymm : (a b : fl.F) → fl.lt a b ≡ true → Le fl a b
  -- A factor of at most 1 does not enlarge a number that is not negative.
  pub mul-le :
      (a p : fl.F) → Le fl (fl.decimal 0) a → Le fl p (fl.decimal 10_000) → Le fl (fl.mul a p) a
  pub decimal-le : (m n : ℕ) → m ≤ n → Le fl (fl.decimal m) (fl.decimal n)

module _ (fl : Float) where
  open fl use {F, lt}

  -- `min(a, b)` and `max(a, b)` give the first of two equal arguments.
  unfoldable pub min : F → F → F
  min a b = if lt b a then b else a

  unfoldable pub max : F → F → F
  max a b = if lt a b then b else a

  -- `min` of a sequence with at least one element.
  unfoldable pub min_of : F → List F → F
  unfolding min
  min_of a [] = a
  min_of a (b ∷ bs) = min_of (min a b) bs

  -- `max` of a sequence with at least one element.
  unfoldable pub max_of : F → List F → F
  unfolding max
  max_of a [] = a
  max_of a (b ∷ bs) = max_of (max a b) bs

  module _ (o : IsOrdered fl) where
    pub min-le_left : (a b : F) → Le fl (min a b) a
    unfolding min
    min-le_left a b = ground (arith, o.le_refl a, o.lt_asymm b a)

    pub min-le_right : (a b : F) → Le fl (min a b) b
    unfolding min
    min-le_right a b = ground (arith, o.le_refl b)

-- Hundredths of a percent, as an instance: every law of the interface holds of it.
abbrev pub basis_points : Float
basis_points = record {
  F = ℕ;
  decimal = λ n. n;
  add = λ a b. a + b;
  mul = λ a b. a * b / 10_000;
  div = λ a b. a * 10_000 / b;
  ratio = λ n d. n * 10_000 / d;
  round4 = λ a. a;
  round_int = λ a. (a + 5000) / 10_000;
  lt = ltb;
}

basis_mul_le : (a p : ℕ) → p ≤ 10_000 → a * p / 10_000 ≤ a
basis_mul_le a p h = omega (arith, mul-le-mul (le_refl a) h)

basis_mul : (a p : ℕ) → ltb p 0 ≡ false → ltb 10_000 p ≡ false → ltb a (a * p / 10_000) ≡ false
basis_mul a p _ h = ground (arith, basis_mul_le a p (ground arith))

pub basis_points-IsOrdered : IsOrdered basis_points
basis_points-IsOrdered = record {
  le_refl = λ a. ground arith;
  le_trans = λ a b c p q. ground arith;
  lt_asymm = λ a b h. ground arith;
  mul-le = λ a p _ h. basis_mul a p (ground arith) h;
  decimal-le = λ m n h. ground arith;
}
