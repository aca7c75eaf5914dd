-- ===== src/Rendezvous/Served.antt =====
-- A bundle that the service hands out is accepted by the clients that pin its root
-- (services/rendezvous/src/lib.rs, with crates/config/src/lib.rs).
use vpn.Prelude.{
  ℕ, ◌≤◌, ◌<◌, ◌≡◌, refl, ap, ◌∙◌, suc, String, true, false, min, List, [], ◌∷◌, map, length, ok,
  F64, Eq, arith, Bool-cases, inl, inr,
}
use vpn.Common.{saturating_add_secs}
use vpn.Crypto.{KeyPair, public_key}
use vpn.Crypto.Dalek.{Ed25519, Ed25519Laws}
use vpn.Config.{SignedBundle, sign_bundle, verify_bundle}
use vpn.Config.Revocation.{RevocationList, contains}
use vpn.Config.Verified.{IsCurrent, release_cert, bundle_cert, pinned, verify_bundle-sign_bundle}
use vpn.Config.Wire.{PayloadJson, PayloadJsonLaws, RelayBundlePayload}
use vpn.Rendezvous.{
  RelayPoolEntry, descriptor, AppState, bundle, payload_of, get_relay_bundle, dev_key_hierarchy,
}
use vpn.Rendezvous.RateLimiter.{allow}

-- `choose_multiple` gives as many elements as it was asked for, if there are so many.
pub record ChooseLaws (choose : ℕ → List RelayPoolEntry → List RelayPoolEntry) : Type 0 where
  pub length_choose : (n : ℕ) (xs : List RelayPoolEntry) → n ≤ length xs → length (choose n xs) ≡ n

length-map_descriptor : (xs : List RelayPoolEntry) → length (map descriptor xs) ≡ length xs
length-map_descriptor [] = refl
length-map_descriptor (x ∷ xs) = ap suc (length-map_descriptor xs)

module _ (d : F64) (Ip : Type 0) ⦃ip_Eq : Eq Ip⦄ (ed : Ed25519) (json : PayloadJson) where
  served-signed :
      (state : AppState d Ip) (ip : Ip) (instant : ℕ)
      (choose : ℕ → List RelayPoolEntry → List RelayPoolEntry) (nonce : String) (now : ℕ)
      (b : SignedBundle)
      → (get_relay_bundle d Ip ed json state ip instant choose nonce now).0 ≡ bundle b
      → ((allow d Ip state.rate_limiter ip instant).0 ≡ true)
        × (sign_bundle ed json
              (payload_of d Ip ed json state choose nonce now)
              state.bundle_key
              state.bundle_key_cert
              state.release_key_cert
            ≡ ok b)
  unfolding get_relay_bundle payload_of
  served-signed state ip instant choose nonce now b h =
      elim (Bool-cases (allow d Ip state.rate_limiter ip instant).0) [
        | inr e ↦ absurd (ground arith)
        | inl e ↦ (e, ground arith)
      ]

module _ (d : F64) (Ip : Type 0) ⦃ip_Eq : Eq Ip⦄ (ed : Ed25519) (ed_laws : Ed25519Laws ed)
    (json : PayloadJson) (json_laws : PayloadJsonLaws json) where
  -- the service holds a bundle key, and the certificates of the chain from a root to it
  pub record IsProvisioned (root release bundle_key : KeyPair) (t1 t2 : ℕ) (state : AppState d Ip)
      : Type 0 where
    pub key : state.bundle_key ≡ bundle_key
    pub bundle_cert_held :
        state.bundle_key_cert ≡ bundle_cert ed ed_laws root release bundle_key t1 t2
    pub release_cert_held :
        state.release_key_cert ≡ release_cert ed ed_laws root release bundle_key t1 t2

  -- the development hierarchy is such a chain
  pub dev-IsProvisioned :
      (root release bundle_key : KeyPair) (t1 t2 : ℕ) (state : AppState d Ip)
      → let (root_key, key, cert, above) = dev_key_hierarchy ed root release bundle_key t1 t2 in
        IsProvisioned root release bundle_key t1 t2
          (record state { bundle_key = key; bundle_key_cert = cert; release_key_cert = above })
  unfolding dev_key_hierarchy
  dev-IsProvisioned root release bundle_key t1 t2 state = record {
    key = refl;
    bundle_cert_held = refl;
    release_cert_held = refl;
  }

  payload-IsCurrent :
      (state : AppState d Ip) (choose : ℕ → List RelayPoolEntry → List RelayPoolEntry)
      (nonce : String) (now t : ℕ)
      → now ≤ t
      → t < saturating_add_secs now state.ttl_secs
      → IsCurrent (payload_of d Ip ed json state choose nonce now) t
  unfolding payload_of vpn.Config.is_supported
  payload-IsCurrent state choose nonce now t h k = record {
    schema = refl;
    started = h;
    unexpired = k;
  }

  payload-endpoints :
      (state : AppState d Ip) (choose : ℕ → List RelayPoolEntry → List RelayPoolEntry)
      (nonce : String) (now : ℕ)
      → ChooseLaws choose
      → length (payload_of d Ip ed json state choose nonce now).endpoints
        ≡ min state.subset_size (length state.pool)
  unfolding payload_of
  payload-endpoints state choose nonce now laws =
      let n = min state.subset_size (length state.pool) in
      length-map_descriptor (choose n state.pool) ∙ laws.length_choose n state.pool (omega arith)

  -- A bundle that a provisioned service hands out verifies at a client that pins the root, from the
  -- instant at which it was made until its time to live is over, unless one of the two keys is
  -- revoked; and it lists as many relays as configured, or all if there are fewer.
  pub served_verifies :
      (root release bundle_key : KeyPair) (t1 t2 : ℕ) (state : AppState d Ip) (ip : Ip)
      (instant : ℕ) (choose : ℕ → List RelayPoolEntry → List RelayPoolEntry) (nonce : String)
      (now t : ℕ) (revoked : RevocationList) (b : SignedBundle)
      → IsProvisioned root release bundle_key t1 t2 state
      → ChooseLaws choose
      → (get_relay_bundle d Ip ed json state ip instant choose nonce now).0 ≡ bundle b
      → contains revoked (public_key ed release) ≡ false
      → contains revoked (public_key ed bundle_key) ≡ false
      → now ≤ t
      → t < saturating_add_secs now state.ttl_secs
      → (p : RelayBundlePayload) × (verify_bundle ed json b
            (pinned ed ed_laws root release bundle_key t1 t2)
            revoked
            t
          ≡ ok p)
        × (length p.endpoints ≡ min state.subset_size (length state.pool))
  unfolding payload_of
  served_verifies root release bundle_key t1 t2 state ip instant choose nonce now t revoked b held
        laws served live1 live2 h k =
      let (_, signed) = served-signed d Ip ed json state ip instant choose nonce now b served in
      let p = payload_of d Ip ed json state choose nonce now in
      let signed' = rw (held.key, held.bundle_cert_held, held.release_cert_held) at signed in
      (
        p,
        verify_bundle-sign_bundle ed ed_laws root release bundle_key t1 t2 json json_laws p revoked
            t b signed' live1 live2 (payload-IsCurrent state choose nonce now t h k),
        payload-endpoints state choose nonce now laws,
      )
