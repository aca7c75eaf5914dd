-- ===== src/Engine.antt =====
-- apps/client-daemon/src/engine.rs: the state of the connection engine, and the candidates it chooses
-- from.
pub mod Outside
pub mod Connect
pub mod Candidates
pub mod Bounds
pub mod Effects
pub mod Outcomes
pub mod Invariant
use vpn.Prelude.{
  ℕ, String, string_Eq, ◌==◌, Bool, true, false, not, nat_eq, if◌then◌else◌, List, [], ◌∷◌, length,
  Option, none, some, Map, lookup, insert, F32,
}
use vpn.Common.{TransportId, EndpointId}
use vpn.Config.Wire.{EndpointDescriptor}
use vpn.FailureClassifier.{ShutdownGuard}
use vpn.FailureClassifier
use vpn.Policy.{Candidate, ScoreBoard}
use vpn.Policy
use Outside.{Network, Endpoint}

infixl 5 ◌>>=?◌
-- `?` on an option
abbrev pub ◌>>=?◌ {ℓ κ} : {A : Type ℓ} {B : Type κ} → Option A → (A → Option B) → Option B
none >>=? k = none
some a >>=? k = k a

abbrev pub filter_map {ℓ κ} : {A : Type ℓ} {B : Type κ} → (A → Option B) → List A → List B
filter_map g [] = []
filter_map g (x ∷ xs) = let rest = filter_map g xs in elim (g x) [ none ↦ rest | some y ↦ y ∷ rest ]

-- the transports that a bundle may name
unfoldable pub known_transport_id_str : String → TransportId
known_transport_id_str s =
    if s == "direct-tls" then "direct-tls" else if s == "noise-quic" then "noise-quic" else ""

module _ (net : Network) where
  pub record ResolvedEndpoint : Type 0 where
    pub descriptor : EndpointDescriptor
    pub endpoint : Endpoint net

  -- an address that parses and a hash of 32 bytes
  unfoldable pub parse_endpoint : EndpointDescriptor → Option (Endpoint net)
  parse_endpoint d = net.parse_address d.address >>=? λ address.
      net.decode_hex d.cert_sha256_hex >>=? λ hash_bytes.
      if not (nat_eq (length hash_bytes) 32)
      then none
      else some (record {
        id = d.id;
        address = address;
        provider_tag = d.provider_tag;
        pinned_cert_sha256 = hash_bytes;
      })

  unfoldable pub resolve : EndpointDescriptor → Option ResolvedEndpoint
  unfolding parse_endpoint
  resolve d =
      parse_endpoint d >>=? λ endpoint. some (record { descriptor = d; endpoint = endpoint })

  -- collecting into a map: a later transport replaces an earlier one of its name
  unfoldable pub register :
      List net.Transport → Map TransportId net.Transport → Map TransportId net.Transport
  register [] m = m
  register (t ∷ ts) m = register ts (insert (net.id t) t m)

  -- an element of the list that `candidates` returns
  pub record Choice : Type 0 where
    pub candidate : Candidate
    pub resolved : ResolvedEndpoint
    pub transport : net.Transport

  -- the choice that an endpoint stands for, if its transport is registered
  unfoldable pub choice_of : Map TransportId net.Transport → ResolvedEndpoint → Option Choice
  unfolding known_transport_id_str
  choice_of transports re =
      lookup (known_transport_id_str re.descriptor.transport) transports >>=? λ transport.
      some (record {
        candidate = record { transport = net.id transport; endpoint = re.descriptor.id };
        resolved = re;
        transport = transport;
      })

module _ (f : F32) (net : Network) where
  pub record ConnectionEngine : Type 0 where
    pub transports : Map TransportId net.Transport
    pub endpoints : List (ResolvedEndpoint net)
    pub scores : ScoreBoard f
    pub shutdown_guard : ShutdownGuard f
    pub tick : ℕ
    pub max_attempts : ℕ

  -- a guard with a window of 8, a threshold of 0.75 and a cooldown of 90 ticks
  unfoldable pub with_max_attempts :
      List net.Transport → List EndpointDescriptor → ℕ → ConnectionEngine
  unfolding register resolve
  with_max_attempts ts ds max_attempts = record {
    transports = register net ts [];
    endpoints = filter_map (resolve net) ds;
    scores = Policy.new f;
    shutdown_guard = FailureClassifier.new f 8 (f.hundredths 75) 90;
    tick = 0;
    max_attempts = max_attempts;
  }

  unfoldable pub new : List net.Transport → List EndpointDescriptor → ConnectionEngine
  new ts ds = with_max_attempts ts ds 4

  unfoldable pub candidates : ConnectionEngine → List (Choice net)
  candidates e = filter_map (choice_of net e.transports) e.endpoints
