-- ===== src/Engine/Invariant.antt =====
-- The invariant of the connection engine (apps/client-daemon/src/engine.rs).
use vpn.Prelude.{
  ℕ, ◌^◌, ◌≤◌, ◌<◌, inl, inr, refl, sym, ◌∙◌, subst, true, false, List, length, max, insert, Result,
  ok, err, F32, F32Laws, arith, Bool-cases,
}
use vpn.NetworkState.{is_remote_signal, FailureCategory}
use vpn.FailureClassifier.{ShutdownGuard}
use vpn.FailureClassifier.Guard.{apply-IsBounded, outcome, query, apply}
use vpn.Policy.{
  Candidate, Score, ScoreBoard, score_of, candidate_Eq, candidate_beq, observe_success,
  observe_failure, record_success, record_failure,
}
use vpn.Policy.Random.{Rand}
use vpn.Policy.Scores.{IsValid, neutral-IsValid, record_success-IsValid, record_failure-IsValid}
use vpn.Policy.Selection.{score_of-insert}
use vpn.Config.Wire.{EndpointDescriptor}
use vpn.Engine.{ConnectionEngine, with_max_attempts}
use vpn.Engine.Outside.{Network, Environment, TransportError, category}
use vpn.Engine.Effects.{connect-keeps}
use vpn.Engine.Connect.{observe, connect}

module _ (f : F32) where
  abbrev pub BoardIsValid : ScoreBoard f → Type 0
  BoardIsValid b = (c : Candidate) → IsValid f (score_of f b c)

module _ (f : F32) (laws : F32Laws f) (r : Rand f) where
  insert-valid :
      (b : ScoreBoard f) (c : Candidate) (s : Score f)
      → BoardIsValid f b
      → IsValid f s
      → BoardIsValid f (record { scores = insert c s b.scores })
  insert-valid b c s v valid d = elim (Bool-cases (candidate_beq c d)) [
    | inl same ↦ subst (IsValid f) (sym (score_of-insert b c d s ∙ rw same refl)) valid
    | inr other ↦ subst (IsValid f) (sym (score_of-insert b c d s ∙ rw other refl)) (v d)
  ]

  observe_success-valid :
      (b : ScoreBoard f) (c : Candidate) → BoardIsValid f b → BoardIsValid f (observe_success f b c)
  unfolding observe_success
  observe_success-valid b c v =
      insert-valid b c (record_success f (score_of f b c)) v (record_success-IsValid f laws _ (v c))

  observe_failure-valid :
      (b : ScoreBoard f) (c : Candidate) (cat : FailureCategory) (now : ℕ) (rng : r.Rng)
      → BoardIsValid f b
      → BoardIsValid f (observe_failure f r b c cat now rng).0
  unfolding observe_failure
  observe_failure-valid b c cat now rng v = elim (Bool-cases (is_remote_signal cat)) [
    | inl remote ↦ rw remote (
        insert-valid b c (record_failure f r (score_of f b c) cat now rng).0 v
          (record_failure-IsValid f laws r _ cat now rng (v c)))
    | inr away ↦ rw away v
  ]

module _ (f : F32) where
  -- Scores in range, a bounded window in the guard, and a tick that fits a `u64`.
  pub record EngineIsValid {net : Network} (e : ConnectionEngine f net) : Type 0 where
    pub scores_valid : BoardIsValid f e.scores
    pub window_bounded : length e.shutdown_guard.window ≤ max e.shutdown_guard.window_size 1
    pub tick_fits : e.tick < 2 ^ 64

module _ (f : F32) (laws : F32Laws f) (r : Rand f) (net : Network) (env : Environment net) where
  observe-valid :
      (n tick : ℕ) (chosen : Candidate) (o : Result TransportError net.Session)
      (e : ConnectionEngine f net) (rng : r.Rng)
      → EngineIsValid f e
      → EngineIsValid f (observe f r net env n tick chosen o e rng).engine
  unfolding observe apply
  observe-valid n tick chosen (ok session) e rng v = record {
    scores_valid = observe_success-valid f laws r e.scores chosen v.scores_valid;
    window_bounded = apply-IsBounded f e.shutdown_guard (outcome tick true) v.window_bounded;
    tick_fits = v.tick_fits;
  }
  observe-valid n tick chosen (err x) e rng v = record {
    scores_valid = elim (Bool-cases (is_remote_signal (category x))) [
      | inl remote ↦ rw remote (
          observe_failure-valid f laws r e.scores chosen (category x) (env.failure_time n) rng
            v.scores_valid)
      | inr away ↦ rw away v.scores_valid
    ];
    window_bounded = apply-IsBounded f e.shutdown_guard (outcome tick false) v.window_bounded;
    tick_fits = v.tick_fits;
  }

  -- A call keeps every score in range, the guard's window bounded and the tick a `u64`, whatever the
  -- transports answer.
  pub connect-EngineIsValid :
      (e : ConnectionEngine f net) (rng : r.Rng)
      → EngineIsValid f e
      → EngineIsValid f (connect f r net env e rng).engine
  unfolding apply
  connect-EngineIsValid e rng v =
      connect-keeps f r net env (λ x. EngineIsValid f x)
        (record {
          start = λ x p. record {
            scores_valid = p.scores_valid;
            window_bounded = apply-IsBounded f x.shutdown_guard (query x.tick) p.window_bounded;
            tick_fits = omega arith;
          };
          outcome =
              λ n tick chosen t ep x rng p. observe-valid n tick chosen (env.dial n t ep) x rng p;
        })
        e rng v

  -- An engine starts with this invariant.
  pub with_max_attempts-EngineIsValid :
      (ts : List net.Transport) (ds : List EndpointDescriptor) (max_attempts : ℕ)
      → EngineIsValid f (with_max_attempts f net ts ds max_attempts)
  unfolding with_max_attempts score_of vpn.FailureClassifier.new
  with_max_attempts-EngineIsValid ts ds max_attempts = record {
    scores_valid = λ c. neutral-IsValid f laws;
    window_bounded = omega arith;
    tick_fits = omega arith;
  }
