-- ===== src/Policy/Scores.antt =====
-- The range of a score, whatever is observed of its candidate (crates/policy/src/lib.rs).
use vpn.Prelude.{
  ℕ, ◌+◌, ◌≤◌, ◌≡◌, List, [], ◌∷◌, F32, F32Laws, InUnit, arith, u16_max, u32_max, subst, sym, min,
}
use vpn.NetworkState.{FailureCategory}
use vpn.Policy.{Score, neutral, ewma, ewma_alpha, record_success, record_failure}
use vpn.Policy.Random.{Rand}

module _ (f : F32) where
  -- A success average between 0 and 1, and counters that fit their words.
  pub record IsValid (s : Score f) : Type 0 where
    pub in_unit : InUnit f s.ewma_success
    pub attempts_fit : s.total_attempts ≤ u32_max
    pub failures_fit : s.consecutive_failures ≤ u16_max

module _ (f : F32) (laws : F32Laws f) where
  abbrev rest : f.Float
  rest = f.sub (f.hundredths 100) (ewma_alpha f)

  alpha-InUnit : InUnit f (ewma_alpha f)
  alpha-InUnit =
      (laws.hundredths_mono 0 30 (omega arith), laws.hundredths_mono 30 100 (omega arith))

  mul-InUnit : (a b : f.Float) → InUnit f a → InUnit f b → InUnit f (f.mul a b)
  mul-InUnit a b p q =
      (laws.mul_nonneg a b p q, laws.le_trans (f.mul a b) a _ (laws.mul_le a b p q) p.1)

  -- the new average lies between 0 and 1 where both values do
  ewma-InUnit : (v old : f.Float) → InUnit f v → InUnit f old → InUnit f (ewma f v old)
  unfolding ewma
  ewma-InUnit v old pv po =
      let value = mul-InUnit (ewma_alpha f) v alpha-InUnit pv in
      let kept = mul-InUnit rest old laws.complement_in po in
      (
        laws.add_nonneg (f.mul (ewma_alpha f) v) (f.mul rest old) value kept,
        laws.le_trans (f.add (f.mul (ewma_alpha f) v) (f.mul rest old)) (f.add (ewma_alpha f) rest)
            (f.hundredths 100)
            (laws.add_mono (f.mul (ewma_alpha f) v) (ewma_alpha f) (f.mul rest old) rest value
              alpha-InUnit kept laws.complement_in (laws.mul_le (ewma_alpha f) v alpha-InUnit pv)
              (laws.mul_le rest old laws.complement_in po))
            laws.complement_sum,
      )

  pub zero-InUnit : InUnit f (f.hundredths 0)
  zero-InUnit = (laws.le_refl (f.hundredths 0), laws.hundredths_mono 0 100 (omega arith))

  pub one-InUnit : InUnit f (f.hundredths 100)
  one-InUnit = (laws.hundredths_mono 0 100 (omega arith), laws.le_refl (f.hundredths 100))

  pub neutral-IsValid : IsValid f (neutral f)
  unfolding neutral
  neutral-IsValid = record {
    in_unit = (laws.hundredths_mono 0 50 (omega arith), laws.hundredths_mono 50 100 (omega arith));
    attempts_fit = omega arith;
    failures_fit = omega arith;
  }

  pub record_success-IsValid : (s : Score f) → IsValid f s → IsValid f (record_success f s)
  unfolding record_success
  record_success-IsValid s v = record {
    in_unit = ewma-InUnit (f.hundredths 100) s.ewma_success one-InUnit v.in_unit;
    attempts_fit = omega arith;
    failures_fit = omega arith;
  }

module _ (f : F32) (r : Rand f) (s : Score f) (c : FailureCategory) (now : ℕ) (rng : r.Rng) where
  pub ewma-record_failure :
      (record_failure f r s c now rng).0.ewma_success ≡ ewma f (f.hundredths 0) s.ewma_success
  unfolding record_failure
  ewma-record_failure = ground arith

  pub failures-record_failure :
      (record_failure f r s c now rng).0.consecutive_failures
      ≡ min (s.consecutive_failures + 1) u16_max
  unfolding record_failure
  failures-record_failure = ground arith

  pub attempts-record_failure :
      (record_failure f r s c now rng).0.total_attempts ≡ min (s.total_attempts + 1) u32_max
  unfolding record_failure
  attempts-record_failure = ground arith

module _ (f : F32) (laws : F32Laws f) (r : Rand f) where
  pub record_failure-IsValid :
      (s : Score f) (c : FailureCategory) (now : ℕ) (rng : r.Rng)
      → IsValid f s
      → IsValid f (record_failure f r s c now rng).0
  record_failure-IsValid s c now rng v = record {
    in_unit =
        subst (InUnit f) (sym (ewma-record_failure f r s c now rng))
          (ewma-InUnit f laws (f.hundredths 0) s.ewma_success (zero-InUnit f laws) v.in_unit);
    attempts_fit = omega (arith, attempts-record_failure f r s c now rng);
    failures_fit = omega (arith, failures-record_failure f r s c now rng);
  }

  -- What is observed of one candidate: a success, or a failure at an instant.
  pub data Seen : Type 0 where
    success : Seen
    failure : FailureCategory → ℕ → Seen

  unfoldable pub observe : Score f → Seen → r.Rng → Score f × r.Rng
  observe s success rng = (record_success f s, rng)
  observe s (failure c now) rng = record_failure f r s c now rng

  unfoldable pub observe_all : Score f → List Seen → r.Rng → Score f × r.Rng
  unfolding observe
  observe_all s [] rng = (s, rng)
  observe_all s (o ∷ os) rng = let (s', rng') = observe s o rng in observe_all s' os rng'

  observe-IsValid :
      (s : Score f) (o : Seen) (rng : r.Rng) → IsValid f s → IsValid f (observe s o rng).0
  unfolding observe
  observe-IsValid s success rng v = record_success-IsValid f laws s v
  observe-IsValid s (failure c now) rng v = record_failure-IsValid s c now rng v

  observe_all-IsValid :
      (s : Score f) (os : List Seen) (rng : r.Rng)
      → IsValid f s
      → IsValid f (observe_all s os rng).0
  unfolding observe_all
  observe_all-IsValid s [] rng v = v
  observe_all-IsValid s (o ∷ os) rng v =
      observe_all-IsValid (observe s o rng).0 os (observe s o rng).1 (observe-IsValid s o rng v)

  -- Whatever is observed of a candidate, and in whatever order, its average stays between 0 and 1
  -- and its counters fit a `u32` and a `u16`.
  pub score_in_range : (os : List Seen) (rng : r.Rng) → IsValid f (observe_all (neutral f) os rng).0
  score_in_range os rng = observe_all-IsValid (neutral f) os rng (neutral-IsValid f laws)
