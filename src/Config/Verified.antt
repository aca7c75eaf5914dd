-- ===== src/Config/Verified.antt =====
-- Which bundles are accepted, and that what the rendezvous service signs is
-- (crates/config/src/lib.rs).
use vpn.Prelude.{
  ℕ, ◌≤◌, ◌<◌, ◌≡◌, ◌↔◌, refl, ap, ◌∙◌, true, false, nat_Eq, list_beq_iff, List, some, ok, arith,
  bind-ok, ok-injective, ok_or-ok, ok_or, subst,
}
use vpn.Crypto.{KeyPair, KeyCertificate, public_key, sign, verify, verify_against, issue}
use vpn.Crypto.Dalek.{Ed25519, Ed25519Laws}
use vpn.Crypto.Certificate.{verify_against-issue, verify-sign}
use vpn.Config.{
  SignedBundle, TrustRoot, is_supported, sign_bundle, verify_chain, check_payload, verify_bundle,
}
use vpn.Config.Revocation.{RevocationList, contains}
use vpn.Config.Wire.{malformed_payload, RelayBundlePayload, PayloadJson, PayloadJsonLaws}

-- What a payload must say to be accepted at `now`.
pub record IsCurrent (p : RelayBundlePayload) (now : ℕ) : Type 0 where
  pub schema : is_supported p.schema_version ≡ true
  pub started : p.issued_at ≤ now
  pub unexpired : now < p.expires_at

pub check_payload_iff :
    (p q : RelayBundlePayload) (now : ℕ)
    → (check_payload p now ≡ ok q) ↔ (IsCurrent p now × (p ≡ q))
unfolding check_payload
check_payload_iff p q now = (λ h. (ground arith, ground arith), λ h. ground (arith, h.0.schema))

module _ (ed : Ed25519) where
  -- What makes a bundle trustworthy, apart from what it says: an unrevoked chain of certificates from
  -- the root to its key, and its signature.
  pub record IsAuthentic (b : SignedBundle) (root : TrustRoot) (revoked : RevocationList)
      : Type 0 where
    pub release_chain : verify_against ed b.release_key_cert root.root_public_key ≡ ok tt
    pub bundle_chain : verify_against ed b.bundle_key_cert b.release_key_cert.child_key ≡ ok tt
    pub key_matches : b.bundle_key_cert.child_key ≡ b.bundle_signing_key
    pub release_live : contains revoked b.release_key_cert.child_key ≡ false
    pub bundle_live : contains revoked b.bundle_signing_key ≡ false
    pub signed : verify ed b.bundle_signing_key b.payload_bytes b.bundle_signature ≡ ok tt

  chain-IsAuthentic :
      (b : SignedBundle) (root : TrustRoot) (revoked : RevocationList)
      → verify_chain ed b root revoked ≡ ok tt
      → IsAuthentic b root revoked
  unfolding verify_chain
  chain-IsAuthentic b root revoked h = record {
    release_chain = ground arith;
    bundle_chain = ground arith;
    key_matches = ground (arith, list_beq_iff b.bundle_key_cert.child_key b.bundle_signing_key);
    release_live = ground arith;
    bundle_live = ground arith;
    signed = ground arith;
  }

  IsAuthentic-chain :
      (b : SignedBundle) (root : TrustRoot) (revoked : RevocationList)
      → IsAuthentic b root revoked
      → verify_chain ed b root revoked ≡ ok tt
  unfolding verify_chain
  IsAuthentic-chain b root revoked i = ground (
    arith,
    i.release_chain,
    i.bundle_chain,
    i.release_live,
    i.bundle_live,
    i.signed,
    i.key_matches,
    list_beq_iff b.bundle_key_cert.child_key b.bundle_signing_key,
  )

module _ (ed : Ed25519) (json : PayloadJson) where
  verify_bundle_sound :
      (b : SignedBundle) (root : TrustRoot) (revoked : RevocationList) (now : ℕ)
      (p : RelayBundlePayload)
      → verify_bundle ed json b root revoked now ≡ ok p
      → IsAuthentic ed b root revoked × (json.from_slice b.payload_bytes ≡ some p) × IsCurrent p now
  unfolding verify_bundle
  verify_bundle_sound b root revoked now p h =
      let (_, chain, parsing) = bind-ok (verify_chain ed b root revoked) _ h in
      let (q, parsed, checked) =
        bind-ok (ok_or (json.from_slice b.payload_bytes) malformed_payload)
          (λ q. check_payload q now) parsing in
      let (current, same) = (check_payload_iff q p now).0 checked in
      (
        chain-IsAuthentic ed b root revoked chain,
        ok_or-ok (json.from_slice b.payload_bytes) malformed_payload parsed ∙ ap some same,
        subst (λ x. IsCurrent x now) same current,
      )

  -- A bundle is accepted with a payload exactly when it is authentic, its bytes parse to the payload,
  -- and the payload is current.
  pub verify_bundle_iff :
      (b : SignedBundle) (root : TrustRoot) (revoked : RevocationList) (now : ℕ)
      (p : RelayBundlePayload)
      → (verify_bundle ed json b root revoked now ≡ ok p) ↔ (
          IsAuthentic ed b root revoked
          × (json.from_slice b.payload_bytes ≡ some p)
          × IsCurrent p now)
  unfolding verify_bundle
  verify_bundle_iff b root revoked now p = (
    verify_bundle_sound b root revoked now p,
    λ h.
        rw (IsAuthentic-chain ed b root revoked h.0, h.1)
          ((check_payload_iff p p now).1 (h.2, refl)),
  )

module _ (ed : Ed25519) (ed_laws : Ed25519Laws ed) (root release bundle_key : KeyPair)
    (t1 t2 : ℕ) where
  -- the certificates that the root and the release key issue, and a bundle that is signed under them
  abbrev pub release_cert : KeyCertificate
  release_cert = issue ed root (public_key ed release) t1

  abbrev pub bundle_cert : KeyCertificate
  bundle_cert = issue ed release (public_key ed bundle_key) t2

  abbrev pub pinned : TrustRoot
  pinned = record { root_public_key = public_key ed root }

  abbrev signed_bytes : List ℕ → SignedBundle
  signed_bytes bytes = record {
    payload_bytes = bytes;
    bundle_signature = sign ed bundle_key bytes;
    bundle_signing_key = public_key ed bundle_key;
    bundle_key_cert = bundle_cert;
    release_key_cert = release_cert;
  }

  signed-IsAuthentic :
      (bytes : List ℕ) (revoked : RevocationList)
      → contains revoked (public_key ed release) ≡ false
      → contains revoked (public_key ed bundle_key) ≡ false
      → IsAuthentic ed (signed_bytes bytes) pinned revoked
  unfolding issue
  signed-IsAuthentic bytes revoked live1 live2 = record {
    release_chain = verify_against-issue ed ed_laws root (public_key ed release) t1;
    bundle_chain = verify_against-issue ed ed_laws release (public_key ed bundle_key) t2;
    key_matches = refl;
    release_live = live1;
    bundle_live = live2;
    signed = verify-sign ed ed_laws bundle_key bytes;
  }

  module _ (json : PayloadJson) (json_laws : PayloadJsonLaws json) where
    -- A bundle that is signed with a key whose certificate a release key issued, whose own certificate
    -- the root key issued, is accepted as long as neither key is revoked and the payload is current.
    pub verify_bundle-sign_bundle :
        (p : RelayBundlePayload) (revoked : RevocationList) (now : ℕ) (b : SignedBundle)
        → sign_bundle ed json p bundle_key bundle_cert release_cert ≡ ok b
        → contains revoked (public_key ed release) ≡ false
        → contains revoked (public_key ed bundle_key) ≡ false
        → IsCurrent p now
        → verify_bundle ed json b pinned revoked now ≡ ok p
    unfolding sign_bundle
    verify_bundle-sign_bundle p revoked now b h live1 live2 current =
        let (bytes, written, built) = bind-ok (ok_or (json.to_vec p) malformed_payload) _ h in
        let parsed =
          json_laws.from_slice-to_vec p bytes
            (ok_or-ok (json.to_vec p) malformed_payload written) in
        subst (λ c. verify_bundle ed json c pinned revoked now ≡ ok p) (ok-injective built)
          ((verify_bundle_iff ed json (signed_bytes bytes) pinned revoked now p).1
            (signed-IsAuthentic bytes revoked live1 live2, parsed, current))
