-- ===== src/NetworkState.antt =====
-- crates/network-state/src/lib.rs: the failure taxonomy and what each category is attributed to.
pub mod Attribution
use vpn.Prelude.{Bool, true, false}
use vpn.Common.{TransportId, EndpointId, UnixSeconds}

pub data FailureCategory : Type 0 where
  dns_failure tcp_timeout tcp_reset tls_failure quic_failure udp_unavailable : FailureCategory
  handshake_timeout stall_after_connect endpoint_unreachable provider_degradation : FailureCategory
  transport_degradation general_route_failure possible_shutdown : FailureCategory
  local_network_failure : FailureCategory

unfoldable pub is_remote_signal : FailureCategory → Bool
is_remote_signal local_network_failure = false
is_remote_signal _ = true

unfoldable pub is_transport_attributable : FailureCategory → Bool
is_transport_attributable tcp_reset = true
is_transport_attributable tls_failure = true
is_transport_attributable quic_failure = true
is_transport_attributable udp_unavailable = true
is_transport_attributable transport_degradation = true
is_transport_attributable _ = false

unfoldable pub is_endpoint_attributable : FailureCategory → Bool
is_endpoint_attributable endpoint_unreachable = true
is_endpoint_attributable tcp_timeout = true
is_endpoint_attributable handshake_timeout = true
is_endpoint_attributable stall_after_connect = true
is_endpoint_attributable _ = false

pub data Outcome : Type 0 where
  success : Outcome
  failure : FailureCategory → Outcome

pub record Observation : Type 0 where
  pub transport : TransportId
  pub endpoint : EndpointId
  pub at : UnixSeconds
  pub outcome : Outcome
