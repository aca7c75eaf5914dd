-- ===== src/Prelude/Floats.antt =====
-- 32-bit floats as an interface: the operations that the program uses, over values that are
-- numbers (no NaN arises), and what IEEE 754 says of them that the program relies on.
use mathlib.Core.Path.{◌≡◌, refl}
use mathlib.Core.Bool.{Bool, true, false}
use Prim.Native.Nat.{ℕ, ◌+◌, ◌-◌, ◌*◌, ◌/◌, ◌≤◌}
use native.Mathlib.Omega.{arith}
use vpn.Prelude.Tests.{leb, le→leb, if◌then◌else◌}

pub record F32 : Type 1 where
  pub Float : Type 0
  -- `n as f32`
  pub of_count : ℕ → Float
  -- the float next to the decimal `digits / 100`
  pub hundredths : ℕ → Float
  pub add : Float → Float → Float
  pub sub : Float → Float → Float
  pub mul : Float → Float → Float
  pub div : Float → Float → Float
  -- `a <= b`
  pub le : Float → Float → Bool

abbrev pub max_f32 : (f : F32) → f.Float → f.Float → f.Float
max_f32 f a b = if f.le a b then b else a

-- between 0 and 1
abbrev pub InUnit : (f : F32) → f.Float → Type 0
InUnit f x = (f.le (f.hundredths 0) x ≡ true) × (f.le x (f.hundredths 100) ≡ true)

-- The order of numbers, and operations on numbers between 0 and 1: rounding is monotone, and the exact
-- results 0 and a factor are representable.
pub record F32Laws (f : F32) : Type 0 where
  pub le_refl : (a : f.Float) → f.le a a ≡ true
  pub le_trans : (a b c : f.Float) → f.le a b ≡ true → f.le b c ≡ true → f.le a c ≡ true
  pub le_total : (a b : f.Float) → f.le a b ≡ false → f.le b a ≡ true
  pub hundredths_mono : (m n : ℕ) → m ≤ n → f.le (f.hundredths m) (f.hundredths n) ≡ true
  -- 0.05 is above 0
  pub floor_positive : f.le (f.hundredths 5) (f.hundredths 0) ≡ false
  pub add_nonneg :
      (a b : f.Float) → InUnit f a → InUnit f b → f.le (f.hundredths 0) (f.add a b) ≡ true
  pub add_mono :
      (a b c d : f.Float)
      → InUnit f a
      → InUnit f b
      → InUnit f c
      → InUnit f d
      → f.le a b ≡ true
      → f.le c d ≡ true
      → f.le (f.add a c) (f.add b d) ≡ true
  pub mul_nonneg :
      (a b : f.Float) → InUnit f a → InUnit f b → f.le (f.hundredths 0) (f.mul a b) ≡ true
  pub mul_le : (a b : f.Float) → InUnit f a → InUnit f b → f.le (f.mul a b) a ≡ true
  -- 1 - 0.3 is exact, and 0.3 + (1 - 0.3) is 1
  pub complement_in : InUnit f (f.sub (f.hundredths 100) (f.hundredths 30))
  pub complement_sum :
      f.le (f.add (f.hundredths 30) (f.sub (f.hundredths 100) (f.hundredths 30))) (f.hundredths 100)
      ≡ true

-- Fixed-point numbers with two digits: an instance, for evaluation.
abbrev pub fixed_point : F32
fixed_point = record {
  Float = ℕ;
  of_count = λ n. n * 100;
  hundredths = λ n. n;
  add = λ a b. a + b;
  sub = λ a b. a - b;
  mul = λ a b. a * b / 100;
  div = λ a b. a * 100 / b;
  le = leb;
}

fixed-mul_le : (a b : ℕ) → InUnit fixed_point a → InUnit fixed_point b → leb (a * b / 100) a ≡ true
fixed-mul_le a b p q =
    let small : b ≤ 100 = ground (arith, q.1) in
    let product : a * b ≤ a * 100 = grind arith in le→leb (a * b / 100) a (omega arith)

pub fixed_point-laws : F32Laws fixed_point
fixed_point-laws = record {
  le_refl = λ a. ground arith;
  le_trans = λ a b c p q. ground arith;
  le_total = λ a b p. ground arith;
  hundredths_mono = λ m n p. ground arith;
  floor_positive = refl;
  add_nonneg = λ a b p q. ground arith;
  add_mono = λ a b c d p q p' q' h k. ground arith;
  mul_nonneg = λ a b p q. ground arith;
  mul_le = fixed-mul_le;
  complement_in = (refl, refl);
  complement_sum = refl;
}
