-- ===== src/Examples/Failures.antt =====
-- Theorems on the failure classifier (crates/failure-classifier/src/lib.rs) at concrete events.
use vpn.Prelude.{
  ◌%◌, ◌^◌, ◌+◌, ℕ, ◌≡◌, ◌≤◌, ◌<◌, ◌⊎◌, refl, max, Bool, true, false, List, [], ◌∷◌, length, none,
  some, fixed_point, arith,
}
use vpn.FailureClassifier.{ShutdownGuard, new, should_suppress_switching}
use vpn.FailureClassifier.Guard.{outcome, query, apply_all, window_bounded, record_all}
use vpn.FailureClassifier.Guard.Cooldown.{suppress_cycle, small_window_inert}

-- a guard of the engine's size after eight failures
abbrev eight_failures : List (ℕ × Bool)
eight_failures =
    (0, false)
    ∷ (1, false)
    ∷ (2, false)
    ∷ (3, false)
    ∷ (4, false)
    ∷ (5, false)
    ∷ (6, false)
    ∷ (7, false)
    ∷ []

abbrev failing : ShutdownGuard fixed_point
failing = record {
  window = eight_failures;
  window_size = 8;
  failure_fraction_threshold = 75;
  cooldown_ticks = 90;
  cooldown_until = none;
}

failing_suppresses : (should_suppress_switching fixed_point failing 8).1 ≡ true
unfolding should_suppress_switching
failing_suppresses = refl

suppress_cycle_example :
    let g' = (should_suppress_switching fixed_point failing 8).0 in
    (until : ℕ) × (g'.cooldown_until ≡ some until)
    × (((failing.cooldown_until ≡ some until) × (8 < until))
        ⊎ (until ≡ (8 + failing.cooldown_ticks) % 2 ^ 64))
    × ((os : List (ℕ × Bool)) (t : ℕ)
        → t < until
        → (should_suppress_switching fixed_point (record_all fixed_point g' os) t).1 ≡ true)
    × ((os : List (ℕ × Bool)) (t : ℕ)
        → until ≤ t
        → let r = should_suppress_switching fixed_point (record_all fixed_point g' os) t in
          (r.1 ≡ false) × (r.0.window ≡ []) × (r.0.cooldown_until ≡ none))
suppress_cycle_example = suppress_cycle fixed_point failing 8 failing_suppresses

small_window_inert_example :
    (should_suppress_switching fixed_point
      (apply_all fixed_point
        (new fixed_point 3 75 90)
        (outcome 0 false ∷ outcome 1 false ∷ outcome 2 false ∷ query 3 ∷ []))
      4).1
    ≡ false
small_window_inert_example =
    small_window_inert fixed_point 3 75 90
      (outcome 0 false ∷ outcome 1 false ∷ outcome 2 false ∷ query 3 ∷ []) 4 (omega arith)

window_bounded_example :
    length
      (apply_all fixed_point
        (new fixed_point 2 75 90)
        (outcome 0 false ∷ outcome 1 true ∷ outcome 2 false ∷ [])).window
    ≤ max 2 1
window_bounded_example =
    window_bounded fixed_point 2 75 90 (outcome 0 false ∷ outcome 1 true ∷ outcome 2 false ∷ [])
