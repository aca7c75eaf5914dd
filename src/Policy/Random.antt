-- ===== src/Policy/Random.antt =====
-- What crates/policy uses of the `rand` crate, as an interface: a uniform draw from a range and a
-- draw of a position by weight.
use Prim.Native.Nat.{ℕ, ◌≤◌, ◌<◌}
use vpn.Prelude.{
  ◌≡◌, ◌≢◌, false, refl, fixed_point, arith, List, [], ◌∷◌, length, Option, none, some, F32,
}

pub record Rand (f : F32) : Type 1 where
  pub Rng : Type 0
  -- `rng.gen_range(lo..=hi)`
  pub gen_range : ℕ → ℕ → Rng → ℕ × Rng
  -- `WeightedIndex::new(weights).ok()`, and a sample of it
  pub sample_weighted : List f.Float → Rng → Option (ℕ × Rng)

-- Every weight is positive.
abbrev pub IsPositive : (f : F32) → List f.Float → Type 0
IsPositive f [] = Unit {0}
IsPositive f (w ∷ ws) = (f.le w (f.hundredths 0) ≡ false) × IsPositive f ws

-- A draw is in its range; a sample is a position of a weight, and there is one if there are weights
-- and all are positive.
pub record RandLaws (f : F32) (r : Rand f) : Type 0 where
  pub gen_range_in :
      (lo hi : ℕ) (rng : r.Rng)
      → lo ≤ hi
      → (lo ≤ (r.gen_range lo hi rng).0) × ((r.gen_range lo hi rng).0 ≤ hi)
  pub sample_in :
      (ws : List f.Float) (rng rng' : r.Rng) (i : ℕ)
      → r.sample_weighted ws rng ≡ some (i, rng')
      → i < length ws
  pub sample_some :
      (ws : List f.Float) (rng : r.Rng)
      → ws ≢ []
      → IsPositive f ws
      → r.sample_weighted ws rng ≢ none

-- The least value of a range and the first weight: an instance, for evaluation.
abbrev pub first_choice : Rand fixed_point
first_choice = record {
  Rng = Unit {0};
  gen_range = λ lo hi rng. (lo, rng);
  sample_weighted = λ ws rng. elim ws [ [] ↦ none | _ ∷ _ ↦ some (0, rng) ];
}

first-sample_in :
    (ws : List ℕ) (rng rng' : Unit {0}) (i : ℕ)
    → first_choice.sample_weighted ws rng ≡ some (i, rng')
    → i < length ws
first-sample_in [] rng rng' i h = cc
first-sample_in (w ∷ ws) rng rng' i h = ground arith

first-sample_some :
    (ws : List ℕ) (rng : Unit {0})
    → ws ≢ []
    → IsPositive fixed_point ws
    → first_choice.sample_weighted ws rng ≢ none
first-sample_some [] rng h p e = h refl
first-sample_some (w ∷ ws) rng h p e = cc

pub first_choice-laws : RandLaws fixed_point first_choice
first_choice-laws = record {
  gen_range_in = λ lo hi rng h. (omega arith, omega arith);
  sample_in = first-sample_in;
  sample_some = first-sample_some;
}
