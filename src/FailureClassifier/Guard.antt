-- ===== src/FailureClassifier/Guard.antt =====
-- The operations on a shutdown guard in sequence, and the size of its window
-- (crates/failure-classifier/src/lib.rs).
pub mod Cooldown
use vpn.Prelude.{
  ℕ, suc, ◌+◌, ◌-◌, ◌%◌, ◌^◌, ◌≤◌, ◌<◌, ◌≡◌, ◌⊎◌, inl, inr, refl, ◌∙◌, Bool, true, false, List, [],
  ◌∷◌, ◌++◌, length, Option, none, some, F32, F32Laws, arith, length-append, max, min, ◌&&◌, keep,
  not,
}
use vpn.FailureClassifier.{
  ShutdownGuard, pop_front, new, record_outcome, failures, failure_fraction, arm,
  should_suppress_switching,
}

length-pop_front : (w : List (ℕ × Bool)) → length (pop_front w) ≡ length w - 1
unfolding pop_front
length-pop_front [] = refl
length-pop_front (x ∷ xs) = omega arith

module _ (f : F32) where
  -- An operation on the guard: an outcome at a tick, or the question whether to switch.
  pub data GuardOp : Type 0 where
    outcome : ℕ → Bool → GuardOp
    query : ℕ → GuardOp

  unfoldable pub apply : ShutdownGuard f → GuardOp → ShutdownGuard f
  apply g (outcome tick success) = record_outcome f g tick success
  apply g (query tick) = (should_suppress_switching f g tick).0

  unfoldable pub apply_all : ShutdownGuard f → List GuardOp → ShutdownGuard f
  unfolding apply
  apply_all g [] = g
  apply_all g (o ∷ os) = apply_all (apply g o) os

  -- The outcomes of a list of attempts, with no question between them.
  unfoldable pub record_all : ShutdownGuard f → List (ℕ × Bool) → ShutdownGuard f
  record_all g [] = g
  record_all g ((tick, success) ∷ os) = record_all (record_outcome f g tick success) os

  abbrev pub IsBounded : ShutdownGuard f → Type 0
  IsBounded g = length g.window ≤ max g.window_size 1

  record_outcome-IsBounded :
      (g : ShutdownGuard f) (tick : ℕ) (success : Bool)
      → IsBounded g
      → IsBounded (record_outcome f g tick success)
  unfolding record_outcome
  record_outcome-IsBounded g tick success h = ground (
    arith,
    length-pop_front g.window,
    length-append g.window ((tick, success) ∷ []),
    length-append (pop_front g.window) ((tick, success) ∷ []),
  )

  suppress-IsBounded :
      (g : ShutdownGuard f) (tick : ℕ)
      → IsBounded g
      → IsBounded (should_suppress_switching f g tick).0
  unfolding should_suppress_switching
  suppress-IsBounded g tick h = ground arith

  -- the parameters never change
  pub apply-window_size :
      (g : ShutdownGuard f) (o : GuardOp) → (apply g o).window_size ≡ g.window_size
  unfolding apply record_outcome should_suppress_switching
  apply-window_size g (outcome tick success) = refl
  apply-window_size g (query tick) = ground arith

  pub apply-IsBounded : (g : ShutdownGuard f) (o : GuardOp) → IsBounded g → IsBounded (apply g o)
  unfolding apply
  apply-IsBounded g (outcome tick success) h = record_outcome-IsBounded g tick success h
  apply-IsBounded g (query tick) h = suppress-IsBounded g tick h

  apply_all-IsBounded :
      (g : ShutdownGuard f) (os : List GuardOp) → IsBounded g → IsBounded (apply_all g os)
  unfolding apply_all
  apply_all-IsBounded g [] h = h
  apply_all-IsBounded g (o ∷ os) h = apply_all-IsBounded (apply g o) os (apply-IsBounded g o h)

  apply_all-window_size :
      (g : ShutdownGuard f) (os : List GuardOp) → (apply_all g os).window_size ≡ g.window_size
  unfolding apply_all
  apply_all-window_size g [] = refl
  apply_all-window_size g (o ∷ os) = apply_all-window_size (apply g o) os ∙ apply-window_size g o

  -- The window of a new guard never holds more than `window_size` outcomes (one, if that is 0),
  -- whatever is recorded and asked.
  pub window_bounded :
      (size : ℕ) (threshold : f.Float) (ticks : ℕ) (os : List GuardOp)
      → length (apply_all (new f size threshold ticks) os).window ≤ max size 1
  unfolding new
  window_bounded size threshold ticks os =
      let g = new f size threshold ticks in
      omega (arith, apply_all-IsBounded g os (omega arith), apply_all-window_size g os)
