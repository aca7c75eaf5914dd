-- ===== src/Policy.antt =====
-- crates/policy/src/lib.rs: a score for each candidate, quarantine, and the weighted choice of the
-- next candidate. An instant is a number of nanoseconds; the clock is read by the caller.
pub mod Random
pub mod KillSwitch
pub mod Scores
pub mod Quarantine
pub mod Selection
use text.Mathlib.TextEquality.{eq_iff}
use vpn.Prelude.{
  ℕ, suc, ◌+◌, ◌*◌, ◌≤◌, ◌≡◌, ◌↔◌, refl, Bool, true, false, ◌&&◌, not, ltb, leb, if◌then◌else◌, Eq,
  string_Eq, ◌==◌, List, [], ◌∷◌, map, keep, get_elem?, Option, none, some, F32, max_f32, Map,
  lookup, insert, arith, saturating_add, u16_max, u32_max,
}
use vpn.Common.{TransportId, EndpointId}
use vpn.NetworkState.{FailureCategory, is_remote_signal}
use Random.{Rand}

abbrev pub quarantine_threshold : ℕ
quarantine_threshold = 3

abbrev pub quarantine_min_secs : ℕ
quarantine_min_secs = 60

abbrev pub quarantine_max_secs : ℕ
quarantine_max_secs = 300

-- `Duration::from_secs`
abbrev pub from_secs : ℕ → ℕ
from_secs s = s * 1000000000

pub record Candidate : Type 0 where
  pub transport : TransportId
  pub endpoint : EndpointId

abbrev pub candidate_beq : Candidate → Candidate → Bool
candidate_beq a b = (a.transport == b.transport) && (a.endpoint == b.endpoint)

pub candidate_iff : (a b : Candidate) → (candidate_beq a b ≡ true) ↔ (a ≡ b)
candidate_iff a b = ground (arith, eq_iff a.transport b.transport, eq_iff a.endpoint b.endpoint)

instance abbrev pub candidate_Eq : Eq Candidate
candidate_Eq = record { beq = candidate_beq; beq_iff = candidate_iff }

module _ (f : F32) where
  abbrev pub ewma_alpha : f.Float
  ewma_alpha = f.hundredths 30

  abbrev pub score_floor : f.Float
  score_floor = f.hundredths 5

  pub record Score : Type 0 where
    pub ewma_success : f.Float
    pub total_attempts : ℕ
    pub consecutive_failures : ℕ
    pub last_failure_category : Option FailureCategory
    pub quarantined_until : Option ℕ

  -- `Score::default`
  unfoldable pub neutral : Score
  neutral = record {
    ewma_success = f.hundredths 50;
    total_attempts = 0;
    consecutive_failures = 0;
    last_failure_category = none;
    quarantined_until = none;
  }

  -- `EWMA_ALPHA * value + (1.0 - EWMA_ALPHA) * ewma`
  unfoldable pub ewma : f.Float → f.Float → f.Float
  ewma value old = f.add (f.mul ewma_alpha value) (f.mul (f.sub (f.hundredths 100) ewma_alpha) old)

  unfoldable pub record_success : Score → Score
  unfolding saturating_add
  record_success s = record s {
    total_attempts = saturating_add u32_max s.total_attempts 1;
    consecutive_failures = 0;
    quarantined_until = none;
    ewma_success = ewma (f.hundredths 100) s.ewma_success;
  }

  unfoldable pub is_quarantined : Score → ℕ → Bool
  is_quarantined s now = elim s.quarantined_until [ none ↦ false | some until ↦ ltb now until ]

  unfoldable pub selection_weight : Score → f.Float
  selection_weight s = max_f32 f s.ewma_success score_floor

  pub record ScoreBoard : Type 0 where
    pub scores : Map Candidate Score

  abbrev pub new : ScoreBoard
  new = record { scores = [] }

  unfoldable pub score_of : ScoreBoard → Candidate → Score
  score_of b c = elim (lookup c b.scores) [ none ↦ neutral | some s ↦ s ]

  -- `entry(c).or_default()` and an update of the entry
  unfoldable pub observe_success : ScoreBoard → Candidate → ScoreBoard
  observe_success b c = record b { scores = insert c (record_success (score_of b c)) b.scores }

  unfoldable pub eligible : ScoreBoard → List Candidate → ℕ → List Candidate
  eligible b candidates now = keep (λ c. not (is_quarantined (score_of b c) now)) candidates

module _ (f : F32) (r : Rand f) where
  open r use {Rng, gen_range, sample_weighted}

  -- the draw of a quarantine, for a score that has failed often enough
  unfoldable pub quarantine : Score f → ℕ → Rng → Score f × Rng
  quarantine s now rng =
      let (jitter_secs, rng') = gen_range quarantine_min_secs quarantine_max_secs rng in
      (record s { quarantined_until = some (now + from_secs jitter_secs) }, rng')

  unfoldable pub record_failure : Score f → FailureCategory → ℕ → Rng → Score f × Rng
  unfolding saturating_add quarantine
  record_failure s category now rng =
      let s' = record s {
        total_attempts = saturating_add u32_max s.total_attempts 1;
        consecutive_failures = saturating_add u16_max s.consecutive_failures 1;
        last_failure_category = some category;
        ewma_success = ewma f (f.hundredths 0) s.ewma_success;
      } in
      if leb quarantine_threshold s'.consecutive_failures then quarantine s' now rng else (s', rng)

  unfoldable pub observe_failure :
      ScoreBoard f → Candidate → FailureCategory → ℕ → Rng → ScoreBoard f × Rng
  observe_failure b c category now rng =
      if not (is_remote_signal category)
      then (b, rng)
      else let (s, rng') = record_failure (score_of f b c) category now rng in
        (record b { scores = insert c s b.scores }, rng')

  -- the candidate at the sampled position
  unfoldable pub pick : List Candidate → Option (ℕ × Rng) → Rng → Option Candidate × Rng
  pick cs none rng = (none, rng)
  pick cs (some (i, rng')) rng = (get_elem? cs i, rng')

  -- `select_next` once the eligible candidates are known
  unfoldable pub select_from : ScoreBoard f → List Candidate → Rng → Option Candidate × Rng
  unfolding pick
  select_from b [] rng = (none, rng)
  select_from b (c ∷ cs) rng =
      let weights = map (λ d. selection_weight f (score_of f b d)) (c ∷ cs) in
      pick (c ∷ cs) (sample_weighted weights rng) rng

  unfoldable pub select_next : ScoreBoard f → List Candidate → ℕ → Rng → Option Candidate × Rng
  select_next b candidates now rng = select_from b (eligible f b candidates now) rng
