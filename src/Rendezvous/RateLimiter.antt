-- ===== src/Rendezvous/RateLimiter.antt =====
-- services/rendezvous/src/lib.rs: the token bucket of each address. An instant is a number of
-- nanoseconds, and the elapsed time is 0 if the clock went back.
pub mod Laws
use vpn.Prelude.{
  ℕ, ◌-◌, Bool, true, false, if◌then◌else◌, List, [], Option, none, some, F64, min_f64, Map, Eq,
  lookup, insert,
}

module _ (d : F64) (Ip : Type 0) where
  -- `RateLimiter`
  pub record Limiter : Type 0 where
    pub buckets : Map Ip (d.Double × ℕ)
    pub capacity : d.Double
    pub refill_per_sec : d.Double

  abbrev pub new : d.Double → d.Double → Limiter
  new capacity refill_per_sec = record {
    buckets = [];
    capacity = capacity;
    refill_per_sec = refill_per_sec;
  }

module _ (d : F64) (Ip : Type 0) ⦃ip_Eq : Eq Ip⦄ where
  -- the bucket of an address: a new one is full
  unfoldable pub bucket_of : Limiter d Ip → Ip → ℕ → d.Double × ℕ
  bucket_of l ip now = elim (lookup ip l.buckets) [ none ↦ (l.capacity, now) | some b ↦ b ]

  unfoldable pub refill : Limiter d Ip → d.Double × ℕ → ℕ → d.Double
  refill l (tokens, last) now =
      min_f64 d (d.add tokens (d.mul (d.as_secs (now - last)) l.refill_per_sec)) l.capacity

  -- a request against the tokens that there are
  unfoldable pub take_token : Limiter d Ip → Ip → d.Double → ℕ → Bool × Limiter d Ip
  take_token l ip tokens now =
      if d.le (d.of_count 1) tokens
      then (true, record l { buckets = insert ip (d.sub tokens (d.of_count 1), now) l.buckets })
      else (false, record l { buckets = insert ip (tokens, now) l.buckets })

  unfoldable pub allow : Limiter d Ip → Ip → ℕ → Bool × Limiter d Ip
  unfolding bucket_of refill take_token
  allow l ip now = take_token l ip (refill l (bucket_of l ip now) now) now
