-- ===== src/Config/Monotone.antt =====
-- How acceptance changes with the clock and with revocations (crates/config/src/lib.rs).
use vpn.Prelude.{ℕ, ◌≤◌, ◌<◌, ◌≡◌, ◌≢◌, ◌||◌, nat_Eq, list_beq, ok, err, arith, if◌then◌else◌}
use vpn.Crypto.{PublicKey}
use vpn.Crypto.Dalek.{Ed25519}
use vpn.Config.{SignedBundle, TrustRoot, verify_chain, check_payload, verify_bundle}
use vpn.Config.Revocation.{RevocationList, revoke, contains-revoke}
use vpn.Config.Wire.{expired, revoked_key, RelayBundlePayload, PayloadJson}
use vpn.Config.Verified.{verify_bundle_iff}

module _ (ed : Ed25519) (b : SignedBundle) (root : TrustRoot) where
  chain-ne-expired :
      (revoked : RevocationList) (at seen : ℕ)
      → verify_chain ed b root revoked ≢ err (expired at seen)
  unfolding verify_chain
  chain-ne-expired revoked at seen h = ground arith

module _ (ed : Ed25519) (json : PayloadJson) (b : SignedBundle) (root : TrustRoot) where
  -- A bundle that is accepted at two instants is accepted at every instant between them, with the
  -- same payload.
  pub accepted_between :
      (revoked : RevocationList) (t1 t2 t3 : ℕ) (p q : RelayBundlePayload)
      → t1 ≤ t2
      → t2 ≤ t3
      → verify_bundle ed json b root revoked t1 ≡ ok p
      → verify_bundle ed json b root revoked t3 ≡ ok q
      → (p ≡ q) × (verify_bundle ed json b root revoked t2 ≡ ok p)
  accepted_between revoked t1 t2 t3 p q le1 le2 h1 h3 =
      let (a1, e1, c1) = (verify_bundle_iff ed json b root revoked t1 p).0 h1 in
      let (a3, e3, c3) = (verify_bundle_iff ed json b root revoked t3 q).0 h3 in
      let same : p ≡ q = cc in
      let later : t2 < p.expires_at = rw same (omega (arith, c3.unexpired)) in
      (
        same,
        (verify_bundle_iff ed json b root revoked t2 p).1 (
          a1,
          e1,
          record { schema = c1.schema; started = omega (arith, c1.started); unexpired = later },
        ),
      )

  -- A bundle that is refused as expired stays refused as expired.
  pub expired_forever :
      (revoked : RevocationList) (t t' at : ℕ) (seen : ℕ)
      → verify_bundle ed json b root revoked t ≡ err (expired at seen)
      → t ≤ t'
      → (seen ≡ t) × (at ≤ t) × (verify_bundle ed json b root revoked t' ≡ err (expired at t'))
  unfolding verify_bundle check_payload
  expired_forever revoked t t' at seen h le =
      let chain = chain-ne-expired ed b root revoked at seen in
      (ground (arith, chain), ground (arith, chain), ground (arith, chain))

  -- Revoking the release key or the signing key of an accepted bundle refuses it for that reason, and
  -- revoking any other key changes nothing.
  pub revoked_refused :
      (revoked : RevocationList) (now : ℕ) (p : RelayBundlePayload) (key : PublicKey)
      → verify_bundle ed json b root revoked now ≡ ok p
      → verify_bundle ed json b root (revoke revoked key) now ≡ (
          if list_beq key b.release_key_cert.child_key || list_beq key b.bundle_signing_key
          then err revoked_key
          else ok p)
  unfolding verify_bundle verify_chain
  revoked_refused revoked now p key h = ground (
    arith,
    contains-revoke revoked key b.release_key_cert.child_key,
    contains-revoke revoked key b.bundle_signing_key,
  )
