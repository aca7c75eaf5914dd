-- ===== src/Engine/Connect.antt =====
-- apps/client-daemon/src/engine.rs: `ConnectionEngine::connect`, one attempt after another. The pause
-- after a failed attempt is only the number drawn for it. The candidates that were dialled are listed
-- beside the answer.
use vpn.Prelude.{
  ℕ, zero, suc, ◌+◌, ◌%◌, ◌^◌, true, false, if◌then◌else◌, ◌==◌, List, [], ◌∷◌, ◌++◌, map, Option,
  none, some, Result, ok, err, F32,
}
use vpn.Common.{TransportId}
use vpn.NetworkState.{is_remote_signal}
use vpn.FailureClassifier.{record_outcome, should_suppress_switching}
use vpn.Policy.{Candidate, candidate_Eq, observe_success, observe_failure, select_next}
use vpn.Policy.Random.{Rand}
use vpn.Engine.{Choice, ConnectionEngine, candidates}
use vpn.Engine.Outside.{Network, Environment, TransportError, category}

pub data EngineError : Type 0 where
  possible_shutdown no_candidates : EngineError
  all_attempts_failed : TransportError → EngineError

-- How a call ends: with a session, with an error, or in the panic of `expect`.
pub data Answer (net : Network) : Type 0 where
  connected : TransportId → net.Session → Answer net
  refused : EngineError → Answer net
  panicked : Answer net

-- How an attempt ends: the call returns, or goes on after an error.
pub data Step (net : Network) : Type 0 where
  return : Answer net → Step net
  again : TransportError → Step net

-- `all.iter().find(|(c, _, _)| *c == chosen)`
unfoldable pub find_choice : {net : Network} → Candidate → List (Choice net) → Option (Choice net)
find_choice chosen [] = none
find_choice chosen (c ∷ cs) = if c.candidate == chosen then some c else find_choice chosen cs

-- the error after the last attempt
unfoldable pub exhausted : Option TransportError → EngineError
exhausted none = no_candidates
exhausted (some e) = all_attempts_failed e

module _ (f : F32) (r : Rand f) (net : Network) where
  pub record Attempt : Type 0 where
    pub step : Step net
    pub engine : ConnectionEngine f net
    pub rng : r.Rng
    pub dialled : List Candidate

  pub record Connection : Type 0 where
    pub answer : Answer net
    pub engine : ConnectionEngine f net
    pub rng : r.Rng
    pub dialled : List Candidate

module _ (f : F32) (r : Rand f) (net : Network) (env : Environment net) where
  -- an outcome is recorded: a failure always in the guard, and in the board if it is a remote signal
  unfoldable pub observe :
      ℕ
      → ℕ
      → Candidate
      → Result TransportError net.Session
      → ConnectionEngine f net
      → r.Rng
      → Attempt f r net
  observe n tick chosen (ok session) e rng = record {
    step = return (connected chosen.transport session);
    engine = record e {
      scores = observe_success f e.scores chosen;
      shutdown_guard = record_outcome f e.shutdown_guard tick true;
    };
    rng = rng;
    dialled = chosen ∷ [];
  }
  observe n tick chosen (err error) e rng =
      let (scores, rng') =
        if is_remote_signal (category error)
        then observe_failure f r e.scores chosen (category error) (env.failure_time n) rng
        else (e.scores, rng) in
      let (jitter_ms, rng'') = r.gen_range 50 499 rng' in
      record {
        step = again error;
        engine = record e {
          scores = scores;
          shutdown_guard = record_outcome f e.shutdown_guard tick false;
        };
        rng = rng'';
        dialled = chosen ∷ [];
      }

  unfoldable pub dial_chosen :
      ℕ → ℕ → Candidate → Option (Choice net) → ConnectionEngine f net → r.Rng → Attempt f r net
  unfolding observe
  dial_chosen n tick chosen none e rng = record {
    step = return panicked;
    engine = e;
    rng = rng;
    dialled = [];
  }
  dial_chosen n tick chosen (some c) e rng =
      observe n tick chosen (env.dial n c.transport c.resolved.endpoint) e rng

  unfoldable pub choose :
      ℕ
      → ℕ
      → List (Choice net)
      → Option Candidate
      → ConnectionEngine f net
      → r.Rng
      → Attempt f r net
  unfolding dial_chosen
  choose n tick all none e rng = record {
    step = return (refused no_candidates);
    engine = e;
    rng = rng;
    dialled = [];
  }
  choose n tick all (some chosen) e rng = dial_chosen n tick chosen (find_choice chosen all) e rng

  -- the body of the loop: a tick, the guard, the choice and its dial
  unfoldable pub attempt : ℕ → List (Choice net) → ConnectionEngine f net → r.Rng → Attempt f r net
  unfolding choose
  attempt n all e rng =
      let tick = e.tick in
      let (guard, suppress) = should_suppress_switching f e.shutdown_guard tick in
      let e' : ConnectionEngine f net = record e {
        tick = (tick + 1) % 2 ^ 64;
        shutdown_guard = guard;
      } in
      if suppress
      then record {
        step = return (refused possible_shutdown);
        engine = e';
        rng = rng;
        dialled = [];
      }
      else let (chosen, rng') =
          select_next f r e'.scores (map (λ c. c.candidate) all) (env.select_time n) rng in
        choose n tick all chosen e' rng'

  -- the attempts from the nth on, when `left` are left and `last` is the last error
  unfoldable pub attempts :
      ℕ
      → ℕ
      → Option TransportError
      → List (Choice net)
      → ConnectionEngine f net
      → r.Rng
      → Connection f r net
  attempts zero n last all e rng = record {
    answer = refused (exhausted last);
    engine = e;
    rng = rng;
    dialled = [];
  }
  attempts (suc left) n last all e rng =
      let a = attempt n all e rng in
      elim a.step [
        | return answer ↦ record {
          answer = answer;
          engine = a.engine;
          rng = a.rng;
          dialled = a.dialled;
        }
        | again error ↦
            let c = attempts left (suc n) (some error) all a.engine a.rng in
            record c { dialled = a.dialled ++ c.dialled }
      ]

  unfoldable pub connect_all :
      List (Choice net) → ConnectionEngine f net → r.Rng → Connection f r net
  unfolding attempts
  connect_all [] e rng = record {
    answer = refused no_candidates;
    engine = e;
    rng = rng;
    dialled = [];
  }
  connect_all (c ∷ cs) e rng = attempts e.max_attempts 0 none (c ∷ cs) e rng

  unfoldable pub connect : ConnectionEngine f net → r.Rng → Connection f r net
  unfolding connect_all
  connect e rng = connect_all (candidates f net e) e rng
