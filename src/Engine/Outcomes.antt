-- ===== src/Engine/Outcomes.antt =====
-- What the answers of `connect` mean (apps/client-daemon/src/engine.rs).
use mathlib.Core.List.{Memᴰ}
use vpn.Prelude.{
  sym, subst, ℕ, zero, suc, ◌≡◌, inl, inr, refl, ap, ◌∙◌, true, false, List, [], ◌∷◌, map, Option,
  none, some, Result, ok, err, F32, Bool-cases,
}
use vpn.Common.{TransportId}
use vpn.FailureClassifier.{should_suppress_switching, record_outcome}
use vpn.Policy.{Candidate, candidate_Eq, score_of, is_quarantined, observe_success, select_next}
use vpn.Policy.Random.{Rand}
use vpn.Policy.Selection.{select_next_sound}
use vpn.Engine.{Choice, ConnectionEngine, candidates}
use vpn.Engine.Outside.{Network, Environment, TransportError}
use vpn.Engine.Candidates.{find_choice-found}
use vpn.Engine.Bounds.{Step-cases, attempt_start, attempts-return, attempts-again}
use vpn.Engine.Connect.{
  connected, return, find_choice, observe, dial_chosen, choose, attempt, attempts, connect_all,
  connect,
}

module _ (f : F32) (r : Rand f) (net : Network) (env : Environment net) where
  -- the engine and the generator before an attempt, all the attempts before it having been made
  unfoldable pub state_at :
      ℕ → List (Choice net) → ConnectionEngine f net → r.Rng → ConnectionEngine f net × r.Rng
  state_at zero all e rng = (e, rng)
  state_at (suc n) all e rng =
      let (e', rng') = state_at n all e rng in
      let a = attempt f r net env n all e' rng' in (a.engine, a.rng)

  -- A success of the nth attempt, at this tick and from this engine: a choice of those offered, not
  -- quarantined at the time of the selection, whose transport answered with the session; the board
  -- afterwards holds the choice's score with the success recorded, and the guard's window ends with a
  -- success.
  pub record IsConnectedAt (n tick : ℕ) (before : ConnectionEngine f net) (all : List (Choice net))
      (t : TransportId) (s : net.Session) (e' : ConnectionEngine f net) : Type 0 where
    pub chosen : Choice net
    pub offered : Memᴰ chosen all
    pub named : chosen.candidate.transport ≡ t
    pub answered : env.dial n chosen.transport chosen.resolved.endpoint ≡ ok s
    pub scored : e'.scores ≡ observe_success f before.scores chosen.candidate
    pub guarded : e'.shutdown_guard ≡ record_outcome f before.shutdown_guard tick true
    pub unquarantined :
        is_quarantined f (score_of f before.scores chosen.candidate) (env.select_time n) ≡ false

  -- Some attempt of a call that starts with this engine succeeds so, from the engine that the attempts
  -- before it have left.
  pub record IsConnected (e : ConnectionEngine f net) (rng : r.Rng) (all : List (Choice net))
      (t : TransportId) (s : net.Session) (e' : ConnectionEngine f net) : Type 0 where
    pub number : ℕ
    pub success :
        let (at, _) = state_at number all e rng in
        IsConnectedAt number at.tick (attempt_start f net at) all t s e'

  observe-connected :
      (n tick : ℕ) (chosen : Candidate) (o : Result TransportError net.Session)
      (e : ConnectionEngine f net) (rng : r.Rng) {t : TransportId} {s : net.Session}
      → let a = observe f r net env n tick chosen o e rng in
        a.step ≡ return (connected t s)
        → (chosen.transport ≡ t)
          × (o ≡ ok s)
          × (a.engine.scores ≡ observe_success f e.scores chosen)
          × (a.engine.shutdown_guard ≡ record_outcome f e.shutdown_guard tick true)
  unfolding observe
  observe-connected n tick chosen (ok session) e rng h = (cc, cc, refl, refl)
  observe-connected n tick chosen (err x) e rng h = cc

  dial_chosen-connected :
      (n tick : ℕ) (chosen : Candidate) (all : List (Choice net)) (o : Option (Choice net))
      (e : ConnectionEngine f net) (rng : r.Rng) {t : TransportId} {s : net.Session}
      → find_choice chosen all ≡ o
      → is_quarantined f (score_of f e.scores chosen) (env.select_time n) ≡ false
      → let a = dial_chosen f r net env n tick chosen o e rng in
        a.step ≡ return (connected t s) → IsConnectedAt n tick e all t s a.engine
  unfolding dial_chosen
  dial_chosen-connected n tick chosen all none e rng found free h = cc
  dial_chosen-connected n tick chosen all (some c) e rng found free h =
      let (inside, same) = find_choice-found chosen all found in
      let dialled = env.dial n c.transport c.resolved.endpoint in
      let (named, answered, scored, guarded) = observe-connected n tick chosen dialled e rng h in
      record {
        chosen = c;
        offered = inside;
        named = ap (λ x. x.transport) same ∙ named;
        answered = answered;
        scored = rw same scored;
        guarded = guarded;
        unquarantined = rw same free;
      }

  choose-connected :
      (n tick : ℕ) (all : List (Choice net)) (o : Option Candidate) (e : ConnectionEngine f net)
      (rng : r.Rng) {t : TransportId} {s : net.Session}
      → ((c : Candidate)
          → o ≡ some c
          → is_quarantined f (score_of f e.scores c) (env.select_time n) ≡ false)
      → let a = choose f r net env n tick all o e rng in
        a.step ≡ return (connected t s) → IsConnectedAt n tick e all t s a.engine
  unfolding choose
  choose-connected n tick all none e rng free h = cc
  choose-connected n tick all (some chosen) e rng free h =
      dial_chosen-connected n tick chosen all (find_choice chosen all) e rng refl (free chosen refl)
        h

  attempt-connected :
      (n : ℕ) (all : List (Choice net)) (e : ConnectionEngine f net) (rng : r.Rng) {t : TransportId}
      {s : net.Session}
      → let a = attempt f r net env n all e rng in
        a.step ≡ return (connected t s)
        → IsConnectedAt n e.tick (attempt_start f net e) all t s a.engine
  unfolding attempt
  attempt-connected n all e rng h =
      let guarded = should_suppress_switching f e.shutdown_guard e.tick in
      let names = map (λ (c : Choice net). c.candidate) all in
      let chosen = select_next f r e.scores names (env.select_time n) rng in
      elim (Bool-cases guarded.1) [
        | inl suppressed ↦ cc (rw suppressed at h)
        | inr free ↦
            let h' = rw free at h in
            rw free (
              choose-connected n e.tick all chosen.0 (attempt_start f net e) chosen.1
                (λ c q. (select_next_sound f r e.scores names (env.select_time n) rng c q).1) h')
      ]

  next_state :
      (n : ℕ) (all : List (Choice net)) (e0 : ConnectionEngine f net) (rng0 : r.Rng)
      (e : ConnectionEngine f net) (rng : r.Rng)
      → state_at n all e0 rng0 ≡ (e, rng)
      → let a = attempt f r net env n all e rng in state_at (suc n) all e0 rng0 ≡ (a.engine, a.rng)
  unfolding state_at
  next_state n all e0 rng0 e rng at =
      ap
        (λ (x : ConnectionEngine f net × r.Rng).
          ((attempt f r net env n all x.0 x.1).engine, (attempt f r net env n all x.0 x.1).rng))
        at

  attempts-connected :
      (left n : ℕ) (last : Option TransportError) (all : List (Choice net))
      (e0 : ConnectionEngine f net) (rng0 : r.Rng) (e : ConnectionEngine f net) (rng : r.Rng)
      {t : TransportId} {s : net.Session}
      → state_at n all e0 rng0 ≡ (e, rng)
      → let c = attempts f r net env left n last all e rng in
        c.answer ≡ connected t s → IsConnected e0 rng0 all t s c.engine
  unfolding attempts
  attempts-connected zero n last all e0 rng0 e rng at h = cc
  attempts-connected (suc left) n last all e0 rng0 e rng {t} {s} at h =
      let a = attempt f r net env n all e rng in
      elim (Step-cases a.step) [
        | inl (answer, ends) ↦
            let q = attempts-return f r net env left n last all e rng answer ends in
            let h' = rw q at h in
            rw q (record {
              number = n;
              success =
                  subst
                    (λ (x : ConnectionEngine f net × r.Rng).
                      IsConnectedAt n x.0.tick (attempt_start f net x.0) all t s a.engine)
                    (sym at) (attempt-connected n all e rng (ends ∙ ap return h'));
            })
        | inr (x, goes_on) ↦
            let q = attempts-again f r net env left n last all e rng x goes_on in
            let h' = rw q at h in
            rw q (
              attempts-connected left (suc n) (some x) all e0 rng0 a.engine a.rng
                (next_state n all e0 rng0 e rng at) h')
      ]

  connect_all-connected :
      (all : List (Choice net)) (e : ConnectionEngine f net) (rng : r.Rng) {t : TransportId}
      {s : net.Session}
      → (connect_all f r net env all e rng).answer ≡ connected t s
      → IsConnected e rng all t s (connect_all f r net env all e rng).engine
  unfolding connect_all state_at
  connect_all-connected [] e rng h = cc
  connect_all-connected (c ∷ cs) e rng h =
      attempts-connected e.max_attempts 0 none (c ∷ cs) e rng e rng refl h

  -- A call that returns a session has it from one of the choices that were offered, dialled by some
  -- attempt while it was not quarantined on the board that the attempts before have left, and it leaves
  -- the success in the scores and in the guard.
  pub connect_connected :
      (e : ConnectionEngine f net) (rng : r.Rng) (t : TransportId) (s : net.Session)
      → (connect f r net env e rng).answer ≡ connected t s
      → IsConnected e rng (candidates f net e) t s (connect f r net env e rng).engine
  unfolding connect
  connect_connected e rng t s h = connect_all-connected (candidates f net e) e rng h
