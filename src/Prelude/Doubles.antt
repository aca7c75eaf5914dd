-- ===== src/Prelude/Doubles.antt =====
-- 64-bit floats as an interface: the operations that the rate limiters use, over values that are
-- numbers, and what IEEE 754 says of them that the limiters rely on.
use mathlib.Core.Path.{◌≡◌, refl}
use mathlib.Core.Bool.{Bool, true}
use Prim.Native.Nat.{ℕ, suc, ◌+◌, ◌-◌, ◌*◌, ◌/◌, ◌^◌, ◌≤◌, ◌<◌}
use native.Mathlib.Omega.{arith}
use vpn.Prelude.Tests.{leb, if◌then◌else◌}

pub record F64 : Type 1 where
  pub Double : Type 0
  pub of_count : ℕ → Double
  -- `Duration::as_secs_f64` of a number of nanoseconds
  pub as_secs : ℕ → Double
  pub add : Double → Double → Double
  pub sub : Double → Double → Double
  pub mul : Double → Double → Double
  pub div : Double → Double → Double
  -- `f64::MIN_POSITIVE`
  pub min_positive : Double
  -- `a <= b`
  pub le : Double → Double → Bool

-- `a.min(b)`
abbrev pub min_f64 : (d : F64) → d.Double → d.Double → d.Double
min_f64 d a b = if d.le a b then a else b

-- `a.max(b)`
abbrev pub max_f64 : (d : F64) → d.Double → d.Double → d.Double
max_f64 d a b = if d.le a b then b else a

-- Numbers up to 2 ^ 53 are exact, adding nothing changes nothing, and subtracting does not raise.
pub record F64Laws (d : F64) : Type 0 where
  pub le_refl : (a : d.Double) → d.le a a ≡ true
  pub le_trans : (a b c : d.Double) → d.le a b ≡ true → d.le b c ≡ true → d.le a c ≡ true
  pub sub_le : (a : d.Double) → d.le (d.sub a (d.of_count 1)) a ≡ true
  pub le_count : (m n : ℕ) → m ≤ 2 ^ 53 → n ≤ 2 ^ 53 → d.le (d.of_count m) (d.of_count n) ≡ leb m n
  pub sub_count : (n : ℕ) → n < 2 ^ 53 → d.sub (d.of_count (suc n)) (d.of_count 1) ≡ d.of_count n
  pub as_secs_zero : d.as_secs 0 ≡ d.of_count 0
  pub zero_mul : (a : d.Double) → d.mul (d.of_count 0) a ≡ d.of_count 0
  pub add_zero : (a : d.Double) → d.add a (d.of_count 0) ≡ a

-- Whole numbers: an instance, for evaluation.
abbrev pub whole : F64
whole = record {
  Double = ℕ;
  of_count = λ n. n;
  as_secs = λ n. n / 1000000000;
  add = λ a b. a + b;
  sub = λ a b. a - b;
  mul = λ a b. a * b;
  div = λ a b. a / b;
  min_positive = 1;
  le = leb;
}

pub whole-laws : F64Laws whole
whole-laws = record {
  le_refl = λ a. ground arith;
  le_trans = λ a b c h k. ground arith;
  sub_le = λ a. ground arith;
  le_count = λ m n h k. refl;
  sub_count = λ n h. omega arith;
  as_secs_zero = refl;
  zero_mul = λ a. omega arith;
  add_zero = λ a. omega arith;
}
