-- ===== src/Rendezvous.antt =====
-- services/rendezvous/src/lib.rs: the state of the service and the answer to a request for relays.
pub mod RateLimiter
pub mod Served
use vpn.Prelude.{
  ℕ, String, Bool, true, false, not, if◌then◌else◌, min, List, [], map, length, Option, none, some,
  Result, ok, err, F64, Eq,
}
use vpn.Common.{saturating_add_secs}
use vpn.Crypto.{KeyPair, KeyCertificate, PublicKey, public_key, issue}
use vpn.Crypto.Dalek.{Ed25519}
use vpn.Config.{SignedBundle, sign_bundle}
use vpn.Config.Wire.{EndpointDescriptor, RelayBundlePayload, PayloadJson}
use RateLimiter.{Limiter, allow}

pub record RelayPoolEntry : Type 0 where
  pub id : String
  pub transport : String
  pub address : String
  pub provider_tag : String
  pub capabilities : List String
  pub cert_sha256_hex : String

-- `From<RelayPoolEntry>`
abbrev pub descriptor : RelayPoolEntry → EndpointDescriptor
descriptor e = record {
  id = e.id;
  transport = e.transport;
  address = e.address;
  provider_tag = e.provider_tag;
  capabilities = e.capabilities;
  cert_sha256_hex = e.cert_sha256_hex;
}

abbrev pub current_schema_version : ℕ
current_schema_version = 1

pub data Response : Type 0 where
  too_many_requests internal_error not_found : Response
  bundle : SignedBundle → Response
  revocation_list : List ℕ → Response

module _ (d : F64) (Ip : Type 0) where
  pub record AppState : Type 0 where
    pub bundle_key : KeyPair
    pub bundle_key_cert : KeyCertificate
    pub release_key_cert : KeyCertificate
    pub pool : List RelayPoolEntry
    pub subset_size : ℕ
    pub ttl_secs : ℕ
    pub rate_limiter : Limiter d Ip
    pub revocation_list_bytes : Option (List ℕ)

module _ (d : F64) (Ip : Type 0) ⦃ip_Eq : Eq Ip⦄ (ed : Ed25519) (json : PayloadJson) where
  -- the payload of a bundle: `choose` is `choose_multiple` of the `rand` crate on the pool, `nonce`
  -- the random nonce in hex, and `now` the clock
  unfoldable pub payload_of :
      AppState d Ip
      → (ℕ → List RelayPoolEntry → List RelayPoolEntry)
      → String
      → ℕ
      → RelayBundlePayload
  payload_of state choose nonce now =
      let n = min state.subset_size (length state.pool) in
      record {
        schema_version = current_schema_version;
        issued_at = now;
        expires_at = saturating_add_secs now state.ttl_secs;
        nonce = nonce;
        endpoints = map descriptor (choose n state.pool);
      }

  unfoldable pub get_relay_bundle :
      AppState d Ip
      → Ip
      → ℕ
      → (ℕ → List RelayPoolEntry → List RelayPoolEntry)
      → String
      → ℕ
      → Response × AppState d Ip
  unfolding payload_of
  get_relay_bundle state ip instant choose nonce now =
      let (allowed, limiter) = allow d Ip state.rate_limiter ip instant in
      let state' : AppState d Ip = record state { rate_limiter = limiter } in
      if not allowed
      then (too_many_requests, state')
      else elim (sign_bundle ed json (payload_of state' choose nonce now) state'.bundle_key
          state'.bundle_key_cert state'.release_key_cert) [
            | err e ↦ (internal_error, state')
            | ok b ↦ (bundle b, state')
          ]

  unfoldable pub get_revocation_list : AppState d Ip → Response
  get_revocation_list state = elim state.revocation_list_bytes [
    | none ↦ not_found
    | some bytes ↦ revocation_list bytes
  ]

-- the keys of a development deployment, from three seeds and the instants of the two certificates
unfoldable pub dev_key_hierarchy :
    Ed25519
    → KeyPair
    → KeyPair
    → KeyPair
    → ℕ
    → ℕ
    → PublicKey × KeyPair × KeyCertificate × KeyCertificate
dev_key_hierarchy ed root release bundle_key t1 t2 = (
  public_key ed root,
  bundle_key,
  issue ed release (public_key ed bundle_key) t2,
  issue ed root (public_key ed release) t1,
)
