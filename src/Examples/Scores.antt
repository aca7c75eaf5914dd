-- ===== src/Examples/Scores.antt =====
-- Theorems on the policy (crates/policy) at concrete scores and candidates.
use vpn.Prelude.{◌≡◌, refl, false, [], ◌∷◌, some, fixed_point}
use vpn.NetworkState.{tcp_reset}
use vpn.Policy.{
  Candidate, Score, ScoreBoard, neutral, score_of, is_quarantined, record_success, observe_failure,
  select_next, from_secs, quarantine_min_secs, quarantine_max_secs, new,
}
use vpn.Policy.Random.{first_choice}

abbrev first : Candidate
first = record { transport = "direct-tls"; endpoint = "relay-1" }

abbrev second : Candidate
second = record { transport = "noise-quic"; endpoint = "relay-2" }

-- the first candidate is quarantined until the instant 100
abbrev board : ScoreBoard fixed_point
board = record {
  scores =
      (
        first,
        record {
          ewma_success = 17;
          total_attempts = 3;
          consecutive_failures = 3;
          last_failure_category = some tcp_reset;
          quarantined_until = some 100;
        },
      )
      ∷ [];
}

second_chosen :
    (select_next fixed_point first_choice board (first ∷ second ∷ []) 50 tt).0 ≡ some second
unfolding select_next vpn.Policy.select_from vpn.Policy.eligible is_quarantined score_of neutral
second_chosen = refl

second_free : is_quarantined fixed_point (score_of fixed_point board second) 50 ≡ false
unfolding is_quarantined score_of neutral
second_free = refl
