-- ===== src/Engine/Outside.antt =====
-- What apps/client-daemon/src/engine.rs uses of the transports (crates/transport-api/src/lib.rs), the
-- clock and the parsers, as interfaces.
use vpn.Prelude.{ℕ, String, Option, Result, List}
use vpn.Common.{TransportId, EndpointId}
use vpn.NetworkState.{FailureCategory}

pub data TransportError : Type 0 where
  connect session : FailureCategory → String → TransportError

-- `TransportError::category`
unfoldable pub category : TransportError → FailureCategory
category (connect c _) = c
category (session c _) = c

pub record Network : Type 1 where
  -- `SocketAddr`, and `str::parse` of it
  pub Address : Type 0
  pub parse_address : String → Option Address
  -- `hex::decode(..).ok()`
  pub decode_hex : String → Option (List ℕ)
  -- `Arc<dyn Transport>` with its `id`, and `Box<dyn Session>`
  pub Transport : Type 0
  pub id : Transport → TransportId
  pub Session : Type 0

pub record Endpoint (net : Network) : Type 0 where
  pub id : EndpointId
  pub address : net.Address
  pub provider_tag : String
  pub pinned_cert_sha256 : List ℕ

-- What happens around the nth attempt of a call: the instants at which the clock is read, and what
-- the transport answers when it is told to connect.
pub record Environment (net : Network) : Type 0 where
  pub select_time : ℕ → ℕ
  pub failure_time : ℕ → ℕ
  pub dial : ℕ → net.Transport → Endpoint net → Result TransportError net.Session
