-- ===== src/RendezvousClient.antt =====
-- crates/rendezvous-client/src/lib.rs: fetching a bundle, and the cache that stands in for it during
-- an outage. The source's answer, the clock and whether the disk takes a write come from outside.
pub mod Offline
use vpn.Prelude.{
  ℕ, Bool, if◌then◌else◌, List, Option, none, some, Result, ok, err, ◌>>=◌, ◌>>◌, map_err, ok_or,
  fail_if, not, ◌≡◌,
}
use vpn.Common.{UnixSeconds}
use vpn.Crypto.Dalek.{Ed25519}
use vpn.Config.{SignedBundle, TrustRoot, verify_bundle}
use vpn.Config.Revocation.{RevocationList}
use vpn.Config.Wire.{ConfigError, RelayBundlePayload, PayloadJson}

pub data RendezvousClientError : Type 0 where
  fetch : RendezvousClientError
  verify : ConfigError → RendezvousClientError
  no_cache io cache_corrupt : RendezvousClientError

-- What the crate uses of `serde_json` for bundles.
pub record BundleJson : Type 0 where
  pub to_vec : SignedBundle → Option (List ℕ)
  pub from_slice : List ℕ → Option SignedBundle

pub record BundleJsonLaws (json : BundleJson) : Type 0 where
  pub from_slice-to_vec :
      (b : SignedBundle) (bytes : List ℕ)
      → json.to_vec b ≡ some bytes
      → json.from_slice bytes ≡ some b

-- The cache file: its bytes, if it exists.
abbrev pub Cache : Type 0
Cache = Option (List ℕ)

-- What `std::fs::write` does: it writes everything, cannot open the file, or has emptied the file and
-- leaves a part.
pub data Write : Type 0 where
  complete unopened : Write
  part : List ℕ → Write

module _ (json : BundleJson) where
  unfoldable pub write_bytes :
      Write → List ℕ → Cache → Result RendezvousClientError (Unit {0}) × Cache
  write_bytes complete bytes cache = (ok tt, some bytes)
  write_bytes unopened bytes cache = (err io, cache)
  write_bytes (part left) bytes cache = (err io, some left)

  unfoldable pub write_cache :
      Write → SignedBundle → Cache → Result RendezvousClientError (Unit {0}) × Cache
  unfolding write_bytes
  write_cache write bundle cache = elim (json.to_vec bundle) [
    | none ↦ (err cache_corrupt, cache)
    | some bytes ↦ write_bytes write bytes cache
  ]

  unfoldable pub read_cache : Bool → Cache → Result RendezvousClientError SignedBundle
  read_cache readable cache = do
    bytes ← ok_or cache no_cache
    fail_if (not readable) io
    ok_or (json.from_slice bytes) cache_corrupt

module _ (ed : Ed25519) (payload_json : PayloadJson) (json : BundleJson)
    (trust_root : TrustRoot) where
  unfoldable pub check :
      SignedBundle → RevocationList → UnixSeconds → Result RendezvousClientError RelayBundlePayload
  check bundle revoked now =
      map_err verify (verify_bundle ed payload_json bundle trust_root revoked now)

  -- the payload is returned only once the cache is written
  unfoldable pub online :
      Write
      → SignedBundle
      → Result RendezvousClientError RelayBundlePayload
      → Cache
      → Result RendezvousClientError RelayBundlePayload × Cache
  unfolding write_cache
  online write bundle (err e) cache = (err e, cache)
  online write bundle (ok payload) cache =
      let (written, cache') = write_cache json write bundle cache in (written >> ok payload, cache')

  unfoldable pub offline :
      Bool → RevocationList → UnixSeconds → Cache → Result RendezvousClientError RelayBundlePayload
  unfolding read_cache check
  offline readable revoked now cache = do
    cached ← read_cache json readable cache
    check cached revoked now

  unfoldable pub get_bundle :
      Result RendezvousClientError SignedBundle
      → RevocationList
      → UnixSeconds
      → Write
      → Bool
      → Cache
      → Result RendezvousClientError RelayBundlePayload × Cache
  get_bundle (ok bundle) revoked now write readable cache =
      online write bundle (check bundle revoked now) cache
  get_bundle (err fetch_err) revoked now write readable cache =
      (offline readable revoked now cache, cache)
