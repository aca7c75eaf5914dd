-- ===== src/Config/SignedList.antt =====
-- crates/config/src/revocation.rs: the signed form of a revocation list.
pub mod Laws
use vpn.Prelude.{ℕ, List, [], ◌∷◌, ◌++◌, Result, ok, err, ◌>>=◌, ◌>>◌, map_err, to_be_bytes}
use vpn.Crypto.{PublicKey, KeyPair, KeyCertificate, sign, verify, verify_against}
use vpn.Crypto.Dalek.{Ed25519}
use vpn.Config.{TrustRoot}
use vpn.Config.Revocation.{RevocationList, from_keys}
use vpn.Config.Wire.{ConfigError, invalid_cert_chain, invalid_signature}

pub record SignedRevocationList : Type 0 where
  pub issued_at : ℕ
  pub revoked_keys : List PublicKey
  pub release_key_cert : KeyCertificate
  pub signature : List ℕ

unfoldable pub concat_keys : List PublicKey → List ℕ
concat_keys [] = []
concat_keys (k ∷ ks) = k ++ concat_keys ks

-- `issued_at.to_be_bytes()` and then every key
unfoldable pub list_bytes : List PublicKey → ℕ → List ℕ
unfolding to_be_bytes
list_bytes revoked_keys issued_at = to_be_bytes 8 issued_at ++ concat_keys revoked_keys

module _ (ed : Ed25519) where
  -- `SignedRevocationList::issue`
  unfoldable pub issue_list : KeyPair → KeyCertificate → List PublicKey → ℕ → SignedRevocationList
  issue_list release_key release_key_cert revoked_keys issued_at = record {
    issued_at = issued_at;
    revoked_keys = revoked_keys;
    release_key_cert = release_key_cert;
    signature = sign ed release_key (list_bytes revoked_keys issued_at);
  }

  -- `SignedRevocationList::verify`
  unfoldable pub verify_list : SignedRevocationList → TrustRoot → Result ConfigError RevocationList
  verify_list l root = do
    map_err (λ _. invalid_cert_chain) (verify_against ed l.release_key_cert root.root_public_key)
    map_err (λ _. invalid_signature)
        (verify ed l.release_key_cert.child_key (list_bytes l.revoked_keys l.issued_at) l.signature)
    ok (from_keys l.revoked_keys)
