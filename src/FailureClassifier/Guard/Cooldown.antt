-- ===== src/FailureClassifier/Guard/Cooldown.antt =====
-- A shutdown guard suppresses for a whole cooldown, lets go when it has passed, and suppresses again
-- only on fresh failures (crates/failure-classifier/src/lib.rs).
use vpn.Prelude.{
  ℕ, ◌+◌, ◌%◌, ◌^◌, ◌≤◌, ◌<◌, ◌≡◌, ◌⊎◌, ◌↔◌, inl, inr, refl, ◌∙◌, Bool, true, false, List, [], ◌∷◌,
  length, none, some, F32, arith, max, Option-cases, Bool-cases, ltb, ap, ◌≢◌,
}
use vpn.FailureClassifier.{
  ShutdownGuard, new, arm, record_outcome, failure_fraction, should_suppress_switching,
}
use vpn.FailureClassifier.Guard.{
  record_all, GuardOp, outcome, query, apply, apply_all, window_bounded, IsBounded,
  apply-window_size, apply-IsBounded,
}

module _ (f : F32) where
  record_all-until :
      (g : ShutdownGuard f) (os : List (ℕ × Bool))
      → (record_all f g os).cooldown_until ≡ g.cooldown_until
  unfolding record_all record_outcome
  record_all-until g [] = refl
  record_all-until g ((tick, success) ∷ os) = record_all-until (record_outcome f g tick success) os

  suppress-running :
      (g : ShutdownGuard f) (until tick : ℕ)
      → g.cooldown_until ≡ some until
      → tick < until
      → should_suppress_switching f g tick ≡ (g, true)
  unfolding should_suppress_switching
  suppress-running g until tick e h = ground arith

  suppress-expired :
      (g : ShutdownGuard f) (until tick : ℕ)
      → g.cooldown_until ≡ some until
      → until ≤ tick
      → should_suppress_switching f g tick
        ≡ (record g { cooldown_until = none; window = [] }, false)
  unfolding should_suppress_switching
  suppress-expired g until tick e h = ground arith

  suppress-ne-none :
      (g : ShutdownGuard f) (tick : ℕ)
      → (should_suppress_switching f g tick).1 ≡ true
      → (should_suppress_switching f g tick).0.cooldown_until ≢ none
  unfolding should_suppress_switching
  suppress-ne-none g tick h e = ground arith

  suppress-until :
      (g : ShutdownGuard f) (tick : ℕ)
      → (should_suppress_switching f g tick).1 ≡ true
      → (until : ℕ) × ((should_suppress_switching f g tick).0.cooldown_until ≡ some until)
  suppress-until g tick h =
      elim (Option-cases (should_suppress_switching f g tick).0.cooldown_until) [
        | inr some_until ↦ some_until
        | inl no_until ↦ absurd (suppress-ne-none g tick h no_until)
      ]

  -- the cooldown is the one that ran before, or ends so many ticks from now
  IsSpan : ShutdownGuard f → ℕ → ℕ → Type 0
  IsSpan g tick until =
      ((g.cooldown_until ≡ some until) × (tick < until))
      ⊎ (until ≡ (tick + g.cooldown_ticks) % 2 ^ 64)

  suppress-IsSpan :
      (g : ShutdownGuard f) (tick until : ℕ)
      → (should_suppress_switching f g tick).1 ≡ true
      → (should_suppress_switching f g tick).0.cooldown_until ≡ some until
      → IsSpan g tick until
  unfolding should_suppress_switching arm IsSpan
  suppress-IsSpan g tick until h e = elim (Option-cases g.cooldown_until) [
    | inl idle ↦ inr (ground arith)
    | inr (old, running) ↦ elim (Bool-cases (ltb tick old)) [
      | inl before ↦ inl (ground arith, ground arith)
      | inr after ↦ inr (ground arith)
    ]
  ]

  -- A guard that suppresses does so at every tick of a cooldown, and lets go at the first question from
  -- the end of the cooldown on, whatever is recorded in between: the window is then empty and the
  -- cooldown gone. The cooldown is the one that was running, whose end is still to come, or it has been
  -- set now and ends `cooldown_ticks` from now, in a `u64` that can wrap.
  pub suppress_cycle :
      (g : ShutdownGuard f) (tick : ℕ)
      → (should_suppress_switching f g tick).1 ≡ true
      → let g' = (should_suppress_switching f g tick).0 in
        (until : ℕ) × (g'.cooldown_until ≡ some until)
        × (((g.cooldown_until ≡ some until) × (tick < until))
            ⊎ (until ≡ (tick + g.cooldown_ticks) % 2 ^ 64))
        × ((os : List (ℕ × Bool)) (t : ℕ)
            → t < until
            → (should_suppress_switching f (record_all f g' os) t).1 ≡ true)
        × ((os : List (ℕ × Bool)) (t : ℕ)
            → until ≤ t
            → let r = should_suppress_switching f (record_all f g' os) t in
              (r.1 ≡ false) × (r.0.window ≡ []) × (r.0.cooldown_until ≡ none))
  suppress_cycle g tick h =
      let g' = (should_suppress_switching f g tick).0 in
      let (until, e) = suppress-until g tick h in
      (
        until,
        e,
        unfold IsSpan in suppress-IsSpan g tick until h e,
        λ os t lt.
            ap (λ (r : ShutdownGuard f × Bool). r.1)
              (suppress-running (record_all f g' os) until t (record_all-until g' os ∙ e) lt),
        λ os t le.
            let r = suppress-expired (record_all f g' os) until t (record_all-until g' os ∙ e) le in
            (rw r, rw r, rw r),
      )

  pub suppress_when :
      (g : ShutdownGuard f) (tick : ℕ)
      → g.cooldown_until ≡ none
      → ((should_suppress_switching f g tick).1 ≡ true) ↔ (
          (max g.window_size 4 ≤ length g.window)
          × (f.le g.failure_fraction_threshold (failure_fraction f g) ≡ true))
  unfolding should_suppress_switching
  suppress_when g tick e = rw e (ground arith)

  -- With no cooldown running, the guard suppresses exactly when its window holds at least
  -- `window_size` outcomes, and four, and the share of failures reaches the threshold; the cooldown
  -- then ends `cooldown_ticks` later.
  pub suppress_iff :
      (g : ShutdownGuard f) (tick : ℕ)
      → g.cooldown_until ≡ none
      → tick + g.cooldown_ticks < 2 ^ 64
      → let r = should_suppress_switching f g tick in
        ((r.1 ≡ true) ↔ (
          (max g.window_size 4 ≤ length g.window)
          × (f.le g.failure_fraction_threshold (failure_fraction f g) ≡ true)))
        × (r.1 ≡ true → r.0.cooldown_until ≡ some (tick + g.cooldown_ticks))
        × (r.0.window ≡ g.window)
  unfolding should_suppress_switching
  suppress_iff g tick e h =
      let no_wrap : (tick + g.cooldown_ticks) % 2 ^ 64 ≡ tick + g.cooldown_ticks = omega arith in
      rw (e, no_wrap) (ground arith)

  -- nothing arms a cooldown while the window is short
  small-suppress :
      (g : ShutdownGuard f) (tick : ℕ)
      → length g.window < 4
      → g.cooldown_until ≡ none
      → should_suppress_switching f g tick ≡ (g, false)
  unfolding should_suppress_switching
  small-suppress g tick h e = ground arith

  apply-none :
      (g : ShutdownGuard f) (o : GuardOp f)
      → length g.window < 4
      → g.cooldown_until ≡ none
      → (apply f g o).cooldown_until ≡ none
  unfolding apply record_outcome
  apply-none g (outcome tick success) h e = e
  apply-none g (query tick) h e =
      ap (λ (r : ShutdownGuard f × Bool). r.0.cooldown_until) (small-suppress g tick h e) ∙ e

  apply_all-none :
      (g : ShutdownGuard f) (os : List (GuardOp f))
      → g.window_size < 4
      → IsBounded f g
      → g.cooldown_until ≡ none
      → (apply_all f g os).cooldown_until ≡ none
  unfolding apply_all
  apply_all-none g [] h b e = e
  apply_all-none g (o ∷ os) h b e =
      apply_all-none (apply f g o) os (omega (arith, apply-window_size f g o))
        (apply-IsBounded f g o b) (apply-none g o (omega arith) e)

  -- A guard whose window is smaller than four never suppresses.
  pub small_window_inert :
      (size : ℕ) (threshold : f.Float) (ticks : ℕ) (os : List (GuardOp f)) (tick : ℕ)
      → size < 4
      → (should_suppress_switching f (apply_all f (new f size threshold ticks) os) tick).1 ≡ false
  unfolding new
  small_window_inert size threshold ticks os tick h =
      let g = apply_all f (new f size threshold ticks) os in
      ap (λ (r : ShutdownGuard f × Bool). r.1)
        (small-suppress g tick (omega (arith, window_bounded f size threshold ticks os))
          (apply_all-none (new f size threshold ticks) os h (omega arith) refl))
