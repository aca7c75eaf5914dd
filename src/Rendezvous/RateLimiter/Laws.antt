-- ===== src/Rendezvous/RateLimiter/Laws.antt =====
-- What a token bucket lets through (services/rendezvous/src/lib.rs).
use vpn.Prelude.{
  ℕ, zero, suc, ◌-◌, ◌^◌, ◌≤◌, ◌≡◌, ◌≢◌, inl, inr, refl, ap, ◌∙◌, subst, true, leb, ltb, none, some,
  F64, F64Laws, min_f64, Eq, ◌==◌, lookup, insert, lookup-insert, arith, Bool-cases,
}
use vpn.Rendezvous.RateLimiter.{Limiter, bucket_of, refill, take_token, allow}

module _ (d : F64) (laws : F64Laws d) where
  min_f64-le : (a b : d.Double) → d.le (min_f64 d a b) b ≡ true
  min_f64-le a b = elim (Bool-cases (d.le a b)) [ inl e ↦ rw e e | inr e ↦ rw e (laws.le_refl b) ]

  min_f64-count :
      (m n : ℕ) → m ≤ n → n ≤ 2 ^ 53 → min_f64 d (d.of_count m) (d.of_count n) ≡ d.of_count m
  min_f64-count m n h k = ground (arith, laws.le_count m n (omega arith) k)

module _ (d : F64) (laws : F64Laws d) (Ip : Type 0) ⦃ip_Eq : Eq Ip⦄ where
  -- `k` requests of one address at one instant
  unfoldable pub burst : ℕ → Limiter d Ip → Ip → ℕ → Limiter d Ip
  burst zero l ip now = l
  burst (suc k) l ip now = burst k (allow d Ip l ip now).1 ip now

  -- a bucket that was used at this instant is not refilled
  refill-now :
      (l : Limiter d Ip) (m c now : ℕ)
      → l.capacity ≡ d.of_count c
      → m ≤ c
      → c ≤ 2 ^ 53
      → refill d Ip l (d.of_count m, now) now ≡ d.of_count m
  unfolding refill
  refill-now l m c now e h k =
      let nothing : now - now ≡ 0 = omega arith in
      rw
        (
          nothing,
          laws.as_secs_zero,
          laws.zero_mul l.refill_per_sec,
          laws.add_zero (d.of_count m),
          e,
        )
        (min_f64-count d laws m c h k)

  bucket_of-insert :
      (l : Limiter d Ip) (ip : Ip) (b : d.Double × ℕ) (now : ℕ)
      → bucket_of d Ip (record l { buckets = insert ip b l.buckets }) ip now ≡ b
  unfolding bucket_of
  bucket_of-insert l ip b now = ground (arith, lookup-insert ip ip b l.buckets, ip_Eq.beq_iff ip ip)

  -- what a request does to its bucket when `m` tokens are there
  take_token-count :
      (l : Limiter d Ip) (ip : Ip) (m now : ℕ)
      → m ≤ 2 ^ 53
      → ((take_token d Ip l ip (d.of_count m) now).0 ≡ ltb 0 m)
        × (bucket_of d Ip (take_token d Ip l ip (d.of_count m) now).1 ip now
            ≡ (d.of_count (m - 1), now))
        × ((take_token d Ip l ip (d.of_count m) now).1.capacity ≡ l.capacity)
  unfolding take_token
  take_token-count l ip zero now h =
      rw (laws.le_count 1 0 (omega arith) (omega arith))
        (refl, bucket_of-insert l ip (d.of_count 0, now) now, refl)
  take_token-count l ip (suc m) now h =
      let enough : leb 1 (suc m) ≡ true = ground arith in
      let one_less : suc m - 1 ≡ m = omega arith in
      let positive : ltb 0 (suc m) ≡ true = ground arith in
      let exact = laws.sub_count m (omega arith) in
      rw (laws.le_count 1 (suc m) (omega arith) h, enough, one_less, positive, exact)
        (refl, bucket_of-insert l ip (d.of_count m, now) now, refl)

  allow-count :
      (l : Limiter d Ip) (ip : Ip) (m c now : ℕ)
      → bucket_of d Ip l ip now ≡ (d.of_count m, now)
      → l.capacity ≡ d.of_count c
      → m ≤ c
      → c ≤ 2 ^ 53
      → ((allow d Ip l ip now).0 ≡ ltb 0 m)
        × (bucket_of d Ip (allow d Ip l ip now).1 ip now ≡ (d.of_count (m - 1), now))
        × ((allow d Ip l ip now).1.capacity ≡ d.of_count c)
  unfolding allow
  allow-count l ip m c now b e h k =
      let (answer, left, same) = take_token-count l ip m now (omega arith) in
      rw (b, refill-now l m c now e h k) (answer, left, same ∙ e)

  burst-count :
      (k : ℕ) (l : Limiter d Ip) (ip : Ip) (m c now : ℕ)
      → bucket_of d Ip l ip now ≡ (d.of_count m, now)
      → l.capacity ≡ d.of_count c
      → m ≤ c
      → c ≤ 2 ^ 53
      → (bucket_of d Ip (burst k l ip now) ip now ≡ (d.of_count (m - k), now))
        × ((burst k l ip now).capacity ≡ d.of_count c)
  unfolding burst
  burst-count zero l ip m c now b e h k = (b ∙ ap (λ x. (d.of_count x, now)) (omega arith), e)
  burst-count (suc i) l ip m c now b e h k =
      let (_, left, same) = allow-count l ip m c now b e h k in
      let (left', same') =
        burst-count i (allow d Ip l ip now).1 ip (m - 1) c now left same (omega arith) k in
      (left' ∙ ap (λ x. (d.of_count x, now)) (omega arith), same')

  -- Of the requests that an address without a bucket makes at one instant, exactly as many are let
  -- through as the capacity has tokens.
  pub burst_allowed :
      (k c : ℕ) (l : Limiter d Ip) (ip : Ip) (now : ℕ)
      → l.capacity ≡ d.of_count c
      → c ≤ 2 ^ 53
      → lookup ip l.buckets ≡ none
      → (allow d Ip (burst k l ip now) ip now).0 ≡ ltb k c
  unfolding bucket_of
  burst_allowed k c l ip now e h fresh =
      let full : bucket_of d Ip l ip now ≡ (d.of_count c, now) = ground arith in
      let (left, same) = burst-count k l ip c c now full e (omega arith) h in
      let left_over = burst k l ip now in
      (allow-count left_over ip (c - k) c now left same (omega arith) h).0 ∙ ground arith

  -- No bucket holds more than the capacity.
  abbrev pub IsCapped : Limiter d Ip → Type 0
  IsCapped l =
      (ip : Ip) (b : d.Double × ℕ) → lookup ip l.buckets ≡ some b → d.le b.0 l.capacity ≡ true

  insert-IsCapped :
      (l : Limiter d Ip) (ip : Ip) (x : d.Double) (now : ℕ)
      → IsCapped l
      → d.le x l.capacity ≡ true
      → IsCapped (record l { buckets = insert ip (x, now) l.buckets })
  insert-IsCapped l ip x now capped fits j b there = elim (Bool-cases (ip == j)) [
    | inl e ↦
        let same : ◌≡◌ {A = d.Double × ℕ} (x, now) b =
          ground (arith, lookup-insert ip j (x, now) l.buckets) in
        subst (λ y. d.le y l.capacity ≡ true) (ap (λ y. y.0) same) fits
    | inr e ↦ capped j b (ground (arith, lookup-insert ip j (x, now) l.buckets))
  ]

  take_token-IsCapped :
      (l : Limiter d Ip) (ip : Ip) (tokens : d.Double) (now : ℕ)
      → IsCapped l
      → d.le tokens l.capacity ≡ true
      → IsCapped (take_token d Ip l ip tokens now).1
  unfolding take_token
  take_token-IsCapped l ip tokens now capped fits =
      let one = d.of_count 1 in
      elim (Bool-cases (d.le one tokens)) [
        | inl e ↦ rw e (
            insert-IsCapped l ip (d.sub tokens one) now capped
              (laws.le_trans (d.sub tokens one) tokens l.capacity (laws.sub_le tokens) fits))
        | inr e ↦ rw e (insert-IsCapped l ip tokens now capped fits)
      ]

  take_token-other :
      (l : Limiter d Ip) (ip j : Ip) (tokens : d.Double) (now : ℕ)
      → ip ≢ j
      → lookup j (take_token d Ip l ip tokens now).1.buckets ≡ lookup j l.buckets
  unfolding take_token
  take_token-other l ip j tokens now ne = ground (
    arith,
    ip_Eq.beq_iff ip j,
    lookup-insert ip j (d.sub tokens (d.of_count 1), now) l.buckets,
    lookup-insert ip j (tokens, now) l.buckets,
  )

  -- A request keeps every bucket within the capacity, and leaves those of other addresses alone.
  pub allow-IsCapped :
      (l : Limiter d Ip) (ip : Ip) (now : ℕ)
      → IsCapped l
      → IsCapped (allow d Ip l ip now).1
        × ((j : Ip) → ip ≢ j → lookup j (allow d Ip l ip now).1.buckets ≡ lookup j l.buckets)
  unfolding allow refill
  allow-IsCapped l ip now capped =
      let tokens = refill d Ip l (bucket_of d Ip l ip now) now in
      (
        take_token-IsCapped l ip tokens now capped (min_f64-le d laws _ l.capacity),
        λ j ne. take_token-other l ip j tokens now ne,
      )
