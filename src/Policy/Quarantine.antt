-- ===== src/Policy/Quarantine.antt =====
-- When a candidate is quarantined, and for how long (crates/policy/src/lib.rs).
use vpn.Prelude.{
  ℕ, ◌+◌, ◌≤◌, ◌<◌, ◌≡◌, refl, ◌∙◌, true, false, List, [], ◌∷◌, ◌++◌, length, none, F32, arith,
  u16_max, min,
}
use vpn.NetworkState.{FailureCategory}
use vpn.Policy.{
  Score, record_success, record_failure, is_quarantined, from_secs, quarantine_min_secs,
  quarantine_max_secs,
}
use vpn.Policy.Random.{Rand, RandLaws}
use vpn.Policy.Scores.{failures-record_failure}

module _ (f : F32) (r : Rand f) where
  -- Failures of one candidate, one after another, each at its instant.
  unfoldable pub fail_all : Score f → List (FailureCategory × ℕ) → r.Rng → Score f × r.Rng
  fail_all s [] rng = (s, rng)
  fail_all s ((c, now) ∷ cs) rng =
      let (s', rng') = record_failure f r s c now rng in fail_all s' cs rng'

  failures-fail_all :
      (s : Score f) (cs : List (FailureCategory × ℕ)) (rng : r.Rng)
      → s.consecutive_failures ≤ u16_max
      → (fail_all s cs rng).0.consecutive_failures
        ≡ min (s.consecutive_failures + length cs) u16_max
  unfolding fail_all
  failures-fail_all s [] rng h = omega arith
  failures-fail_all s ((c, now) ∷ cs) rng h =
      let (s', rng') = record_failure f r s c now rng in
      omega (arith, failures-record_failure f r s c now rng, failures-fail_all s' cs rng')

  fail_all-append :
      (s : Score f) (cs : List (FailureCategory × ℕ)) (c : FailureCategory) (now : ℕ) (rng : r.Rng)
      → let (s', rng') = fail_all s cs rng in
        fail_all s (cs ++ (c, now) ∷ []) rng ≡ record_failure f r s' c now rng'
  unfolding fail_all
  fail_all-append s [] c now rng = refl
  fail_all-append s ((d, t) ∷ cs) c now rng =
      let (s', rng') = record_failure f r s d t rng in fail_all-append s' cs c now rng'

  record_failure-few :
      (s : Score f) (c : FailureCategory) (now : ℕ) (rng : r.Rng)
      → s.consecutive_failures < 2
      → (record_failure f r s c now rng).0.quarantined_until ≡ s.quarantined_until
  unfolding record_failure
  record_failure-few s c now rng h = ground arith

  fail_all-few :
      (s : Score f) (cs : List (FailureCategory × ℕ)) (rng : r.Rng)
      → s.consecutive_failures + length cs < 3
      → (fail_all s cs rng).0.quarantined_until ≡ s.quarantined_until
  unfolding fail_all
  fail_all-few s [] rng h = refl
  fail_all-few s ((c, now) ∷ cs) rng h =
      let (s', rng') = record_failure f r s c now rng in
      fail_all-few s' cs rng' (omega (arith, failures-record_failure f r s c now rng))
      ∙ record_failure-few s c now rng (omega arith)

free : {f : F32} (s : Score f) (t : ℕ) → s.quarantined_until ≡ none → is_quarantined f s t ≡ false
unfolding is_quarantined
free s t e = ground arith

module _ (f : F32) (r : Rand f) (laws : RandLaws f r) where
  record_failure-many :
      (s : Score f) (c : FailureCategory) (now : ℕ) (rng : r.Rng) (t : ℕ)
      → 2 ≤ s.consecutive_failures
      → let s' = (record_failure f r s c now rng).0 in
        (t < now + from_secs quarantine_min_secs → is_quarantined f s' t ≡ true)
        × (now + from_secs quarantine_max_secs ≤ t → is_quarantined f s' t ≡ false)
  unfolding record_failure is_quarantined
  record_failure-many s c now rng t h =
      let draw = laws.gen_range_in quarantine_min_secs quarantine_max_secs rng (omega arith) in
      (ground (arith, draw.0), ground (arith, draw.1))

  -- Failures after a success quarantine a candidate exactly from the third in a row on: with fewer
  -- it is not quarantined at any instant, and with more it is for at least 60 seconds after the last
  -- failure, and no longer than 300.
  pub quarantine_after_success :
      (s : Score f) (cs : List (FailureCategory × ℕ)) (c : FailureCategory) (now : ℕ) (rng : r.Rng)
      (t : ℕ)
      → let s' = (fail_all f r (record_success f s) (cs ++ (c, now) ∷ []) rng).0 in
        (length cs < 2 → is_quarantined f s' t ≡ false)
        × (2 ≤ length cs → t < now + from_secs quarantine_min_secs → is_quarantined f s' t ≡ true)
        × (2 ≤ length cs → now + from_secs quarantine_max_secs ≤ t → is_quarantined f s' t ≡ false)
  unfolding record_success
  quarantine_after_success s cs c now rng t =
      let s0 = record_success f s in
      let (s', rng') = fail_all f r s0 cs rng in
      let last = fail_all-append f r s0 cs c now rng in
      let count = failures-fail_all f r s0 cs rng (omega arith) in
      let many = record_failure-many s' c now rng' t in
      (
        λ few. rw last (
            free (record_failure f r s' c now rng').0 t (
              record_failure-few f r s' c now rng' (omega arith)
              ∙ fail_all-few f r s0 cs rng (omega arith))),
        λ enough. rw last (many (omega arith)).0,
        λ enough. rw last (many (omega arith)).1,
      )
