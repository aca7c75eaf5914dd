-- ===== src/Subscription/Eviction.antt =====
-- services/subscription/src/lib.rs: its rate limiter, a token bucket as in services/rendezvous that
-- also bounds the number of its buckets.
use vpn.Prelude.{
  ℕ, ◌-◌, Bool, false, not, ◌||◌, leb, if◌then◌else◌, List, [], ◌∷◌, map, length, take, keep, F64,
  max_f64, Map, Eq, ◌==◌,
}
use vpn.Rendezvous.RateLimiter.{Limiter}
use vpn.Rendezvous.RateLimiter

abbrev pub max_buckets : ℕ
max_buckets = 8192

abbrev pub trim_to : ℕ
trim_to = 4096

module _ {Ip : Type 0} where
  -- a stable sort by the instant, the latest first
  unfoldable pub insert_latest : Ip × ℕ → List (Ip × ℕ) → List (Ip × ℕ)
  insert_latest x [] = x ∷ []
  insert_latest x (y ∷ ys) =
      let rest = insert_latest x ys in if leb y.1 x.1 then x ∷ y ∷ ys else y ∷ rest

  unfoldable pub sort_latest : List (Ip × ℕ) → List (Ip × ℕ)
  unfolding insert_latest
  sort_latest [] = []
  sort_latest (x ∷ xs) = insert_latest x (sort_latest xs)

module _ {Ip : Type 0} ⦃ip_Eq : Eq Ip⦄ where
  unfoldable pub is_among : Ip → List Ip → Bool
  is_among ip [] = false
  is_among ip (x ∷ xs) = (x == ip) || is_among ip xs

module _ (d : F64) (Ip : Type 0) ⦃ip_Eq : Eq Ip⦄ where
  -- the buckets that are not both full and idle
  unfoldable pub drop_idle : Limiter d Ip → Map Ip (d.Double × ℕ) → ℕ → Map Ip (d.Double × ℕ)
  drop_idle l buckets now =
      let idle_for =
        max_f64 d (d.div l.capacity (max_f64 d l.refill_per_sec d.min_positive)) (d.of_count 1) in
      keep
        (λ (b : Ip × (d.Double × ℕ)).
          not (d.le l.capacity b.1.0) || not (d.le idle_for (d.as_secs (now - b.1.1))))
        buckets

  -- those of the addresses seen last
  unfoldable pub trim : Map Ip (d.Double × ℕ) → Map Ip (d.Double × ℕ)
  unfolding sort_latest is_among
  trim buckets =
      let seen = sort_latest (map (λ (b : Ip × (d.Double × ℕ)). (b.0, b.1.1)) buckets) in
      let kept = map (λ (s : Ip × ℕ). s.0) (take trim_to seen) in
      keep (λ (b : Ip × (d.Double × ℕ)). is_among b.0 kept) buckets

  unfoldable pub evict_full_buckets : Limiter d Ip → ℕ → Limiter d Ip
  unfolding drop_idle trim
  evict_full_buckets l now =
      if leb (length l.buckets) max_buckets
      then l
      else let live = drop_idle l l.buckets now in
        record l { buckets = if leb (length live) trim_to then live else trim live }

  unfoldable pub allow : Limiter d Ip → Ip → ℕ → Bool × Limiter d Ip
  unfolding evict_full_buckets
  allow l ip now =
      let (allowed, l') = RateLimiter.allow d Ip l ip now in (allowed, evict_full_buckets l' now)
