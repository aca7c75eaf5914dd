-- ===== src/Common/Laws.antt =====
-- Duration buckets grow with the duration, and a saturating sum never wraps.
use vpn.Prelude.{ℕ, ◌≤◌, u64_max, arith}
use vpn.Common.{
  DurationBucket, under100_ms, under500_ms, under2s, under10s, over10s, from_millis,
  saturating_add_secs,
}

-- The least number of milliseconds in a bucket.
abbrev pub floor_ms : DurationBucket → ℕ
floor_ms under100_ms = 0
floor_ms under500_ms = 100
floor_ms under2s = 500
floor_ms under10s = 2000
floor_ms over10s = 10000

pub from_millis_mono : (a b : ℕ) → a ≤ b → floor_ms (from_millis a) ≤ floor_ms (from_millis b)
unfolding from_millis
from_millis_mono a b h = ground arith

pub from_millis-floor_ms : (ms : ℕ) → floor_ms (from_millis ms) ≤ ms
unfolding from_millis
from_millis-floor_ms ms = ground arith

pub saturating_add_secs_bounds :
    (t secs : ℕ)
    → t ≤ u64_max
    → (t ≤ saturating_add_secs t secs) × (saturating_add_secs t secs ≤ u64_max)
unfolding saturating_add_secs
saturating_add_secs_bounds t secs h = (omega arith, omega arith)
