-- ===== src/NetworkState/Attribution.antt =====
-- A failure is attributed to a transport or to an endpoint, never to both, and only if it is a
-- remote signal.
use vpn.Prelude.{◌≡◌, true, false, arith, ◌&&◌, ◌||◌}
use vpn.NetworkState.{
  FailureCategory, local_network_failure, is_remote_signal, is_transport_attributable,
  is_endpoint_attributable,
}

-- A category is blamed on at most one of transport and endpoint, and a category that is blamed on
-- either is a remote signal.
pub attribution_disjoint :
    (c : FailureCategory)
    → ((is_transport_attributable c && is_endpoint_attributable c) ≡ false)
      × ((is_transport_attributable c || is_endpoint_attributable c) ≡ true
          → is_remote_signal c ≡ true)
unfolding is_transport_attributable is_endpoint_attributable is_remote_signal
attribution_disjoint c = ground arith

-- A local failure is the only category that is no remote signal.
pub local_iff : (c : FailureCategory) → is_remote_signal c ≡ false → c ≡ local_network_failure
unfolding is_remote_signal
local_iff c h = ground arith
