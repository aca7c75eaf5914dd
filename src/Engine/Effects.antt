-- ===== src/Engine/Effects.antt =====
-- What a call of `connect` does to the engine (apps/client-daemon/src/engine.rs).
use vpn.Prelude.{
  ℕ, zero, suc, ◌≡◌, inl, inr, refl, false, List, [], ◌∷◌, map, Option, none, some, err, F32,
  Bool-cases, Result-cases,
}
use vpn.NetworkState.{is_remote_signal}
use vpn.FailureClassifier.{should_suppress_switching}
use vpn.Policy.{Candidate, select_next}
use vpn.Policy.Random.{Rand}
use vpn.Engine.{Choice, ConnectionEngine, candidates}
use vpn.Engine.Outside.{Network, Endpoint, Environment, TransportError, category}
use vpn.Engine.Bounds.{Step-cases, attempt_start, attempts-return, attempts-again}
use vpn.Engine.Connect.{
  find_choice, observe, dial_chosen, choose, attempt, attempts, connect_all, connect,
}

module _ (f : F32) (r : Rand f) (net : Network) (env : Environment net)
    (P : ConnectionEngine f net → Type 0) where
  -- A property of the engine that the guard's question and every outcome keep.
  pub record IsKept : Type 0 where
    pub start : (e : ConnectionEngine f net) → P e → P (attempt_start f net e)
    pub outcome :
        (n tick : ℕ) (chosen : Candidate) (t : net.Transport) (ep : Endpoint net)
        (e : ConnectionEngine f net) (rng : r.Rng)
        → P e
        → P (observe f r net env n tick chosen (env.dial n t ep) e rng).engine

  module _ (kept : IsKept) (all : List (Choice net)) where
    dial_chosen-keeps :
        (n tick : ℕ) (chosen : Candidate) (o : Option (Choice net)) (e : ConnectionEngine f net)
        (rng : r.Rng)
        → P e
        → P (dial_chosen f r net env n tick chosen o e rng).engine
    unfolding dial_chosen
    dial_chosen-keeps n tick chosen none e rng p = p
    dial_chosen-keeps n tick chosen (some c) e rng p =
        kept.outcome n tick chosen c.transport c.resolved.endpoint e rng p

    choose-keeps :
        (n tick : ℕ) (o : Option Candidate) (e : ConnectionEngine f net) (rng : r.Rng)
        → P e
        → P (choose f r net env n tick all o e rng).engine
    unfolding choose
    choose-keeps n tick none e rng p = p
    choose-keeps n tick (some chosen) e rng p =
        dial_chosen-keeps n tick chosen (find_choice chosen all) e rng p

    attempt-keeps :
        (n : ℕ) (e : ConnectionEngine f net) (rng : r.Rng)
        → P e
        → P (attempt f r net env n all e rng).engine
    unfolding attempt
    attempt-keeps n e rng p =
        let started = kept.start e p in
        let names = map (λ (c : Choice net). c.candidate) all in
        let chosen = select_next f r e.scores names (env.select_time n) rng in
        elim (Bool-cases (should_suppress_switching f e.shutdown_guard e.tick).1) [
          | inl suppressed ↦ rw suppressed started
          | inr free ↦
              rw free (choose-keeps n e.tick chosen.0 (attempt_start f net e) chosen.1 started)
        ]

    attempts-keeps :
        (left n : ℕ) (last : Option TransportError) (e : ConnectionEngine f net) (rng : r.Rng)
        → P e
        → P (attempts f r net env left n last all e rng).engine
    unfolding attempts
    attempts-keeps zero n last e rng p = p
    attempts-keeps (suc left) n last e rng p =
        let a = attempt f r net env n all e rng in
        let p' = attempt-keeps n e rng p in
        elim (Step-cases a.step) [
          | inl (answer, ends) ↦
              rw (attempts-return f r net env left n last all e rng answer ends) p'
          | inr (x, goes_on) ↦
              rw (attempts-again f r net env left n last all e rng x goes_on)
                (attempts-keeps left (suc n) (some x) a.engine a.rng p')
        ]

  connect_all-keeps :
      IsKept
      → (all : List (Choice net)) (e : ConnectionEngine f net) (rng : r.Rng) → P e
      → P (connect_all f r net env all e rng).engine
  unfolding connect_all
  connect_all-keeps kept [] e rng p = p
  connect_all-keeps kept (c ∷ cs) e rng p =
      attempts-keeps kept (c ∷ cs) e.max_attempts 0 none e rng p

  pub connect-keeps :
      IsKept
      → (e : ConnectionEngine f net) (rng : r.Rng) → P e
      → P (connect f r net env e rng).engine
  unfolding connect
  connect-keeps kept e rng p = connect_all-keeps kept (candidates f net e) e rng p

module _ (f : F32) (r : Rand f) (net : Network) (env : Environment net) where
  -- The configuration of an engine is not changed by a call.
  pub connect_frame :
      (e : ConnectionEngine f net) (rng : r.Rng)
      → let e' = (connect f r net env e rng).engine in
        (e'.transports ≡ e.transports)
        × (e'.endpoints ≡ e.endpoints)
        × (e'.max_attempts ≡ e.max_attempts)
  unfolding observe
  connect_frame e rng =
      connect-keeps f r net env
        (λ x.
          (x.transports ≡ e.transports)
          × (x.endpoints ≡ e.endpoints)
          × (x.max_attempts ≡ e.max_attempts))
        (record {
          start = λ x p. p;
          outcome = λ n tick chosen t ep x rng p. elim (Result-cases (env.dial n t ep)) [
            | inl (s, h) ↦ rw h p
            | inr (x, h) ↦ rw h p
          ];
        })
        e rng (refl, refl, refl)

  -- If no attempt connects and every failure is that of the local network, the scores of all
  -- candidates stay as they were.
  pub connect_local :
      (e : ConnectionEngine f net) (rng : r.Rng)
      → ((n : ℕ) (t : net.Transport) (ep : Endpoint net)
          → (x : TransportError) × (env.dial n t ep ≡ err x)
            × (is_remote_signal (category x) ≡ false))
      → (connect f r net env e rng).engine.scores ≡ e.scores
  unfolding observe
  connect_local e rng local =
      connect-keeps f r net env (λ x. x.scores ≡ e.scores)
        (record {
          start = λ x p. p;
          outcome = λ n tick chosen t ep x rng p.
              let (error, failed, away) = local n t ep in rw (failed, away) p;
        })
        e rng refl
