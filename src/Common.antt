-- ===== src/Common.antt =====
-- crates/common/src/lib.rs: identifiers, Unix seconds and duration buckets.
pub mod Framing
pub mod Laws
use vpn.Prelude.{ℕ, String, leb, u64_max, saturating_add, if◌then◌else◌, Eq, ◌==◌, ◌&&◌}

-- `TransportId` and `EndpointId` wrap a text.
abbrev pub TransportId : Type 0
TransportId = String

abbrev pub EndpointId : Type 0
EndpointId = String

-- a `u64` of seconds
abbrev pub UnixSeconds : Type 0
UnixSeconds = ℕ

unfoldable pub saturating_add_secs : UnixSeconds → ℕ → UnixSeconds
unfolding saturating_add
saturating_add_secs t secs = saturating_add u64_max t secs

pub data DurationBucket : Type 0 where
  under100_ms under500_ms under2s under10s over10s : DurationBucket

-- the ranges of the `match` in `DurationBucket::from_millis`, from the first on
unfoldable pub from_millis : ℕ → DurationBucket
from_millis ms =
    if leb ms 99
    then under100_ms
    else if leb ms 499
    then under500_ms
    else if leb ms 1999
    then under2s
    else if leb ms 9999
    then under10s
    else over10s
