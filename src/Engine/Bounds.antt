-- ===== src/Engine/Bounds.antt =====
-- How a call of `connect` can end, and how often it dials (apps/client-daemon/src/engine.rs).
use mathlib.Core.List.{Memᴰ}
use vpn.Prelude.{
  ℕ, zero, suc, ◌+◌, ◌%◌, ◌^◌, ◌≤◌, ◌≡◌, ◌≢◌, ◌⊎◌, inl, inr, refl, ap, ◌∙◌, List, [], ◌∷◌, ◌++◌,
  map, length, length-append, Option, none, some, Result, ok, err, F32, arith, Bool-cases,
}
use vpn.FailureClassifier.{should_suppress_switching}
use vpn.Policy.{Candidate, select_next}
use vpn.Policy.Random.{Rand}
use vpn.Policy.Selection.{select_next_sound}
use vpn.Engine.{Choice, ConnectionEngine, candidates}
use vpn.Engine.Outside.{Network, Environment, TransportError}
use vpn.Engine.Candidates.{find_choice-mem}
use vpn.Engine.Connect.{
  EngineError, possible_shutdown, no_candidates, all_attempts_failed, Answer, refused, panicked,
  Step, return, again, Attempt, Connection, observe, dial_chosen, choose, attempt, attempts,
  connect_all, connect,
}

pub Step-cases :
    {net : Network} (s : Step net)
    → ((a : Answer net) × (s ≡ return a)) ⊎ ((e : TransportError) × (s ≡ again e))
Step-cases (return a) = inl (a, refl)
Step-cases (again e) = inr (e, refl)

module _ (f : F32) (net : Network) where
  -- the engine after the tick and the guard's answer
  abbrev pub attempt_start : ConnectionEngine f net → ConnectionEngine f net
  attempt_start e = record e {
    tick = (e.tick + 1) % 2 ^ 64;
    shutdown_guard = (should_suppress_switching f e.shutdown_guard e.tick).0;
  }

module _ (f : F32) (r : Rand f) (net : Network) (env : Environment net) where
  -- What holds of an attempt: it dials once if the call goes on or connects, and not at all if the
  -- call is refused; it never panics, and never ends the call with a transport's error.
  record IsOrderly (a : Attempt f r net) : Type 0 where
    again_once : (e : TransportError) → a.step ≡ again e → length a.dialled ≡ 1
    at_most_once : length a.dialled ≤ 1
    no_panic : a.step ≢ return panicked
    no_exhaustion : (e : TransportError) → a.step ≢ return (refused (all_attempts_failed e))

  observe-IsOrderly :
      (n tick : ℕ) (chosen : Candidate) (o : Result TransportError net.Session)
      (e : ConnectionEngine f net) (rng : r.Rng)
      → IsOrderly (observe f r net env n tick chosen o e rng)
  unfolding observe
  observe-IsOrderly n tick chosen (ok session) e rng = record {
    again_once = λ x h. refl;
    at_most_once = omega arith;
    no_panic = λ h. cc;
    no_exhaustion = λ x h. cc;
  }
  observe-IsOrderly n tick chosen (err x) e rng = record {
    again_once = λ x h. refl;
    at_most_once = omega arith;
    no_panic = λ h. cc;
    no_exhaustion = λ x h. cc;
  }

  refusal-IsOrderly :
      (x : EngineError) (e : ConnectionEngine f net) (rng : r.Rng)
      → ((y : TransportError) → x ≢ all_attempts_failed y)
      → IsOrderly (record { step = return (refused x); engine = e; rng = rng; dialled = [] })
  refusal-IsOrderly x e rng other = record {
    again_once = λ y h. cc;
    at_most_once = omega arith;
    no_panic = λ h. cc;
    no_exhaustion = λ y h. other y (cc);
  }

  choose-IsOrderly :
      (n tick : ℕ) (all : List (Choice net)) (o : Option Candidate) (e : ConnectionEngine f net)
      (rng : r.Rng)
      → ((c : Candidate) → o ≡ some c → Memᴰ c (map (λ d. d.candidate) all))
      → IsOrderly (choose f r net env n tick all o e rng)
  unfolding choose dial_chosen
  choose-IsOrderly n tick all none e rng h = refusal-IsOrderly no_candidates e rng (λ x. λ q. cc)
  choose-IsOrderly n tick all (some chosen) e rng h =
      let (c, found, _) = find_choice-mem chosen all (h chosen refl) in
      let ready =
        observe-IsOrderly n tick chosen (env.dial n c.transport c.resolved.endpoint) e rng in
      rw found ready

  attempt-IsOrderly :
      (n : ℕ) (all : List (Choice net)) (e : ConnectionEngine f net) (rng : r.Rng)
      → IsOrderly (attempt f r net env n all e rng)
  unfolding attempt
  attempt-IsOrderly n all e rng =
      let guarded = should_suppress_switching f e.shutdown_guard e.tick in
      let e' = attempt_start f net e in
      let names = map (λ (c : Choice net). c.candidate) all in
      let chosen = select_next f r e.scores names (env.select_time n) rng in
      elim (Bool-cases guarded.1) [
        | inl suppressed ↦ rw suppressed (refusal-IsOrderly possible_shutdown e' rng (λ x q. cc))
        | inr free ↦ rw free (
            choose-IsOrderly n e.tick all chosen.0 e' chosen.1
              (λ c h. (select_next_sound f r e.scores names (env.select_time n) rng c h).0))
      ]

  -- the loop after an attempt that ends the call, and after one that does not
  pub attempts-return :
      (left n : ℕ) (last : Option TransportError) (all : List (Choice net))
      (e : ConnectionEngine f net) (rng : r.Rng) (answer : Answer net)
      → let a = attempt f r net env n all e rng in
        a.step ≡ return answer
        → attempts f r net env (suc left) n last all e rng
          ≡ record { answer = answer; engine = a.engine; rng = a.rng; dialled = a.dialled }
  unfolding attempts
  attempts-return left n last all e rng answer h = rw (h, attempts) refl

  pub attempts-again :
      (left n : ℕ) (last : Option TransportError) (all : List (Choice net))
      (e : ConnectionEngine f net) (rng : r.Rng) (x : TransportError)
      → let a = attempt f r net env n all e rng in
        let c = attempts f r net env left (suc n) (some x) all a.engine a.rng in
        a.step ≡ again x
        → attempts f r net env (suc left) n last all e rng
          ≡ record c { dialled = a.dialled ++ c.dialled }
  unfolding attempts
  attempts-again left n last all e rng x h = rw (h, attempts) refl

  module _ (all : List (Choice net)) where
    -- what the attempts that are left can do
    record IsBounded (left : ℕ) (c : Connection f r net) : Type 0 where
      dials : length c.dialled ≤ left
      no_panic : c.answer ≢ panicked
      exhausted_dials :
          (e : TransportError)
          → c.answer ≡ refused (all_attempts_failed e)
          → length c.dialled ≡ left

    attempts-IsBounded :
        (left n : ℕ) (last : Option TransportError) (e : ConnectionEngine f net) (rng : r.Rng)
        → IsBounded left (attempts f r net env left n last all e rng)
    unfolding attempts
    attempts-IsBounded zero n last e rng = record {
      dials = omega arith;
      no_panic = λ h. cc;
      exhausted_dials = λ x h. refl;
    }
    attempts-IsBounded (suc left) n last e rng =
        let a = attempt f r net env n all e rng in
        let orderly = attempt-IsOrderly n all e rng in
        elim (Step-cases a.step) [
          | inl (answer, ends) ↦ rw (attempts-return left n last all e rng answer ends) (record {
            dials = omega (arith, orderly.at_most_once);
            no_panic = λ h. orderly.no_panic (ends ∙ ap return h);
            exhausted_dials = λ x h. absurd (orderly.no_exhaustion x (ends ∙ ap return h));
          })
          | inr (x, goes_on) ↦
              let later = attempts-IsBounded left (suc n) (some x) a.engine a.rng in
              let rest = attempts f r net env left (suc n) (some x) all a.engine a.rng in
              let total = length-append a.dialled rest.dialled in
              rw (attempts-again left n last all e rng x goes_on) (record {
                dials = omega (arith, total, orderly.again_once x goes_on, later.dials);
                no_panic = later.no_panic;
                exhausted_dials = λ y h.
                    omega (arith, total, orderly.again_once x goes_on, later.exhausted_dials y h);
              })
        ]

  connect_all-IsBounded :
      (all : List (Choice net)) (e : ConnectionEngine f net) (rng : r.Rng)
      → (length (connect_all f r net env all e rng).dialled ≤ e.max_attempts)
        × ((connect_all f r net env all e rng).answer ≢ panicked)
        × ((x : TransportError)
            → (connect_all f r net env all e rng).answer ≡ refused (all_attempts_failed x)
            → length (connect_all f r net env all e rng).dialled ≡ e.max_attempts)
  unfolding connect_all
  connect_all-IsBounded [] e rng = (omega arith, λ h. cc, λ x h. cc)
  connect_all-IsBounded (c ∷ cs) e rng =
      let b = attempts-IsBounded (c ∷ cs) e.max_attempts 0 none e rng in
      (b.dials, b.no_panic, b.exhausted_dials)

  -- A call never panics, dials at most `max_attempts` times, and gives up with the last error only
  -- after exactly `max_attempts` dials.
  pub connect_bounded :
      (e : ConnectionEngine f net) (rng : r.Rng)
      → (length (connect f r net env e rng).dialled ≤ e.max_attempts)
        × ((connect f r net env e rng).answer ≢ panicked)
        × ((x : TransportError)
            → (connect f r net env e rng).answer ≡ refused (all_attempts_failed x)
            → length (connect f r net env e rng).dialled ≡ e.max_attempts)
  unfolding connect
  connect_bounded e rng = connect_all-IsBounded (candidates f net e) e rng
