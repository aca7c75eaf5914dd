-- ===== src/Policy/Selection.antt =====
-- What the choice of the next candidate guarantees, and which scores an outcome changes
-- (crates/policy/src/lib.rs).
use mathlib.Core.List.{Memᴰ}
use mathlib.Core.List.Memᴰ.{not-nil}
use vpn.Prelude.{
  ℕ, suc, ◌<◌, ◌≡◌, ◌≢◌, inl, inr, refl, ap, true, false, not, List, [], ◌∷◌, length, map, Option,
  none, some, F32, F32Laws, arith, Bool-cases, mem-keep, keep-mem, get_elem?-mem, get_elem?-lt,
  insert, lookup-insert, if◌then◌else◌,
}
use vpn.NetworkState.{FailureCategory, is_remote_signal, local_network_failure}
use vpn.Policy.{
  Candidate, candidate_Eq, candidate_beq, candidate_iff, Score, record_success, record_failure,
  is_quarantined, selection_weight, ScoreBoard, score_of, observe_success, observe_failure,
  eligible, pick, select_from, select_next,
}
use vpn.Policy.Random.{Rand, RandLaws, IsPositive}

module _ (f : F32) (b : ScoreBoard f) (now : ℕ) where
  mem-eligible :
      {c : Candidate} (cs : List Candidate)
      → Memᴰ c (eligible f b cs now)
      → Memᴰ c cs × (is_quarantined f (score_of f b c) now ≡ false)
  unfolding eligible
  mem-eligible {c} cs m =
      let (inside, passes) = mem-keep (λ d. not (is_quarantined f (score_of f b d) now)) cs m in
      (inside, ground arith)

  eligible-mem :
      {c : Candidate} (cs : List Candidate)
      → Memᴰ c cs
      → is_quarantined f (score_of f b c) now ≡ false
      → Memᴰ c (eligible f b cs now)
  unfolding eligible
  eligible-mem {c} cs m e = keep-mem (λ d. not (is_quarantined f (score_of f b d) now)) m (rw e)

module _ (f : F32) (r : Rand f) where
  pick-mem :
      (cs : List Candidate) (o : Option (ℕ × r.Rng)) (rng : r.Rng) {c : Candidate}
      → (pick f r cs o rng).0 ≡ some c
      → Memᴰ c cs
  unfolding pick
  pick-mem cs none rng h = cc
  pick-mem cs (some (i, rng')) rng h = get_elem?-mem cs i h

  select_from-mem :
      (b : ScoreBoard f) (cs : List Candidate) (rng : r.Rng) {c : Candidate}
      → (select_from f r b cs rng).0 ≡ some c
      → Memᴰ c cs
  unfolding select_from
  select_from-mem b [] rng h = cc
  select_from-mem b (d ∷ ds) rng h = pick-mem (d ∷ ds) _ rng h

  -- The candidate that is chosen is one of those given, and is not quarantined.
  pub select_next_sound :
      (b : ScoreBoard f) (candidates : List Candidate) (now : ℕ) (rng : r.Rng) (c : Candidate)
      → (select_next f r b candidates now rng).0 ≡ some c
      → Memᴰ c candidates × (is_quarantined f (score_of f b c) now ≡ false)
  unfolding select_next
  select_next_sound b candidates now rng c h =
      mem-eligible f b now candidates (select_from-mem b (eligible f b candidates now) rng h)

module _ (f : F32) (laws : F32Laws f) where
  weight-pos : (s : Score f) → f.le (selection_weight f s) (f.hundredths 0) ≡ false
  unfolding selection_weight
  weight-pos s =
      let floor_pos = laws.floor_positive in
      let above = laws.le_trans s.ewma_success (f.hundredths 0) (f.hundredths 5) in
      let floor_nonneg = laws.hundredths_mono 0 5 (omega arith) in
      elim (Bool-cases (f.le s.ewma_success (f.hundredths 5))) [
        | inl low ↦ rw low floor_pos
        | inr high ↦ rw high (elim (Bool-cases (f.le s.ewma_success (f.hundredths 0))) [
          | inr pos ↦ pos
          | inl neg ↦ cc (above neg floor_nonneg)
        ])
      ]

  weights-IsPositive :
      (b : ScoreBoard f) (cs : List Candidate)
      → IsPositive f (map (λ c. selection_weight f (score_of f b c)) cs)
  weights-IsPositive b [] = tt
  weights-IsPositive b (c ∷ cs) = (weight-pos (score_of f b c), weights-IsPositive b cs)

length-map {ℓ κ} :
    {A : Type ℓ} {B : Type κ} (g : A → B) (xs : List A) → length (map g xs) ≡ length xs
length-map g [] = refl
length-map g (x ∷ xs) = ap suc (length-map g xs)

module _ (f : F32) (laws : F32Laws f) (r : Rand f) (rand : RandLaws f r) where
  -- a sample that is there and in range picks a candidate
  pick-some :
      (cs : List Candidate) (o : Option (ℕ × r.Rng)) (rng : r.Rng)
      → o ≢ none
      → ((i : ℕ) (rng' : r.Rng) → o ≡ some (i, rng') → i < length cs)
      → (d : Candidate) × ((pick f r cs o rng).0 ≡ some d)
  unfolding pick
  pick-some cs none rng there inside = absurd (there refl)
  pick-some cs (some (i, rng')) rng there inside = get_elem?-lt cs i (inside i rng' refl)

  select_from-some :
      (b : ScoreBoard f) (c : Candidate) (cs : List Candidate) (rng : r.Rng)
      → (d : Candidate) × ((select_from f r b (c ∷ cs) rng).0 ≡ some d)
  unfolding select_from
  select_from-some b c cs rng =
      let weight = λ (d : Candidate). selection_weight f (score_of f b d) in
      let ws = map weight (c ∷ cs) in
      pick-some (c ∷ cs) (r.sample_weighted ws rng) rng
        (rand.sample_some ws rng (λ e. cc) (weights-IsPositive f laws b (c ∷ cs)))
        (λ i rng' e. omega (arith, rand.sample_in ws rng rng' i e, length-map weight cs))

  select_from-mem_some :
      (b : ScoreBoard f) (cs : List Candidate) (rng : r.Rng) {c : Candidate}
      → Memᴰ c cs
      → (d : Candidate) × ((select_from f r b cs rng).0 ≡ some d)
  select_from-mem_some b [] rng m = absurd (not-nil m)
  select_from-mem_some b (x ∷ xs) rng m = select_from-some b x xs rng

  -- If any of the candidates given is not quarantined, one is chosen.
  pub select_next_complete :
      (b : ScoreBoard f) (candidates : List Candidate) (now : ℕ) (rng : r.Rng) (c : Candidate)
      → Memᴰ c candidates
      → is_quarantined f (score_of f b c) now ≡ false
      → (d : Candidate) × ((select_next f r b candidates now rng).0 ≡ some d)
  unfolding select_next
  select_next_complete b candidates now rng c m e =
      select_from-mem_some b (eligible f b candidates now) rng (eligible-mem f b now candidates m e)

pub score_of-insert :
    {f : F32} (b : ScoreBoard f) (c d : Candidate) (s : Score f)
    → score_of f (record { scores = insert c s b.scores }) d
      ≡ (if candidate_beq c d then s else score_of f b d)
unfolding score_of
score_of-insert b c d s = ground (arith, lookup-insert c d s b.scores)

module _ (f : F32) (r : Rand f) where
  -- An outcome changes the score of its own candidate alone, and a local network failure changes no
  -- score and draws nothing.
  pub observations_local :
      (b : ScoreBoard f) (c d : Candidate) (cat : FailureCategory) (now : ℕ) (rng : r.Rng)
      → (c ≢ d → score_of f (observe_success f b c) d ≡ score_of f b d)
        × (c ≢ d → score_of f (observe_failure f r b c cat now rng).0 d ≡ score_of f b d)
        × (observe_failure f r b c local_network_failure now rng ≡ (b, rng))
  unfolding observe_success observe_failure is_remote_signal
  observations_local b c d cat now rng =
      let s' = record_failure f r (score_of f b c) cat now rng in
      (
        λ h.
            ground
              (arith, score_of-insert b c d (record_success f (score_of f b c)), candidate_iff c d),
        λ h. ground (arith, score_of-insert b c d s'.0, candidate_iff c d),
        refl,
      )

  -- The score of a candidate after an outcome is its score before with the outcome recorded.
  pub observations_own :
      (b : ScoreBoard f) (c : Candidate) (cat : FailureCategory) (now : ℕ) (rng : r.Rng)
      → (score_of f (observe_success f b c) c ≡ record_success f (score_of f b c))
        × (is_remote_signal cat ≡ true
            → score_of f (observe_failure f r b c cat now rng).0 c
              ≡ (record_failure f r (score_of f b c) cat now rng).0)
  unfolding observe_success observe_failure
  observations_own b c cat now rng =
      let s' = record_failure f r (score_of f b c) cat now rng in
      (
        ground
            (arith, score_of-insert b c c (record_success f (score_of f b c)), candidate_iff c c),
        λ h. ground (arith, score_of-insert b c c s'.0, candidate_iff c c),
      )
