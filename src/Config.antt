-- ===== src/Config.antt =====
-- crates/config/src/lib.rs: signed bundles and their verification.
pub mod Revocation
pub mod Wire
pub mod Verified
pub mod Monotone
pub mod SignedList
use vpn.Prelude.{
  ℕ, String, Bool, true, false, not, ltb, leb, nat_eq, if◌then◌else◌, nat_Eq, list_Eq, list_beq,
  ◌==◌, List, [], ◌∷◌, Option, Result, ok, err, ◌>>=◌, ◌>>◌, fail_if, ok_or, map_err,
}
use vpn.Common.{UnixSeconds}
use vpn.Crypto.{PublicKey, KeyPair, KeyCertificate, public_key, sign, verify, verify_against}
use vpn.Crypto.Dalek.{Ed25519}
use Revocation.{RevocationList, contains}
use Wire.{ConfigError, RelayBundlePayload, PayloadJson}
use Wire.{
  invalid_signature, invalid_cert_chain, expired, not_yet_valid, unsupported_schema_version,
  revoked_key, malformed_payload,
}

-- `SUPPORTED_SCHEMA_VERSIONS.contains`
unfoldable pub is_supported : ℕ → Bool
is_supported v = nat_eq v 1

pub record TrustRoot : Type 0 where
  pub root_public_key : PublicKey

pub record SignedBundle : Type 0 where
  pub payload_bytes : List ℕ
  pub bundle_signature : List ℕ
  pub bundle_signing_key : PublicKey
  pub bundle_key_cert : KeyCertificate
  pub release_key_cert : KeyCertificate

-- the schema and the validity period of a payload that is authentic
unfoldable pub check_payload :
    RelayBundlePayload → UnixSeconds → Result ConfigError RelayBundlePayload
check_payload payload now = do
  fail_if (not (is_supported payload.schema_version))
      (unsupported_schema_version payload.schema_version)
  fail_if (ltb now payload.issued_at) (not_yet_valid payload.issued_at now)
  fail_if (leb payload.expires_at now) (expired payload.expires_at now)
  ok payload

module _ (ed : Ed25519) where
  -- the chain from the pinned root to the bundle's key, and the signature of the payload
  unfoldable pub verify_chain :
      SignedBundle → TrustRoot → RevocationList → Result ConfigError (Unit {0})
  verify_chain bundle root revoked = do
    map_err (λ _. invalid_cert_chain)
        (verify_against ed bundle.release_key_cert root.root_public_key)
    fail_if (contains revoked bundle.release_key_cert.child_key) revoked_key
    map_err (λ _. invalid_cert_chain)
        (verify_against ed bundle.bundle_key_cert bundle.release_key_cert.child_key)
    fail_if (not (list_beq bundle.bundle_key_cert.child_key bundle.bundle_signing_key))
        invalid_cert_chain
    fail_if (contains revoked bundle.bundle_signing_key) revoked_key
    map_err (λ _. invalid_signature)
        (verify ed bundle.bundle_signing_key bundle.payload_bytes bundle.bundle_signature)

module _ (ed : Ed25519) (json : PayloadJson) where
  -- `SignedBundle::sign`
  unfoldable pub sign_bundle :
      RelayBundlePayload
      → KeyPair
      → KeyCertificate
      → KeyCertificate
      → Result ConfigError SignedBundle
  sign_bundle payload bundle_key bundle_key_cert release_key_cert = do
    payload_bytes ← ok_or (json.to_vec payload) malformed_payload
    ok (record {
      payload_bytes = payload_bytes;
      bundle_signature = sign ed bundle_key payload_bytes;
      bundle_signing_key = public_key ed bundle_key;
      bundle_key_cert = bundle_key_cert;
      release_key_cert = release_key_cert;
    })

  unfoldable pub verify_bundle :
      SignedBundle
      → TrustRoot
      → RevocationList
      → UnixSeconds
      → Result ConfigError RelayBundlePayload
  verify_bundle bundle root revoked now = do
    verify_chain ed bundle root revoked
    payload ← ok_or (json.from_slice bundle.payload_bytes) malformed_payload
    check_payload payload now
