-- ===== src/Crypto.antt =====
-- crates/crypto/src/lib.rs and hierarchy.rs: keys, signatures, key files and key certificates. A key,
-- a signature and a message are lists of bytes.
pub mod Dalek
pub mod Hex
pub mod KeyFile
pub mod Certificate
use vpn.Prelude.{
  ℕ, String, Bool, not, nat_eq, if◌then◌else◌, List, ◌++◌, length, Option, Result, ok, err, ◌>>=◌,
  ◌>>◌, fail_if, ok_or, to_be_bytes,
}
use Dalek.{Ed25519}
use Hex.{HexCodec, trim}

pub data CryptoError : Type 0 where
  invalid_signature malformed_key insecure_key_permissions : CryptoError

abbrev pub PublicKey : Type 0
PublicKey = List ℕ

module _ (x : HexCodec) where
  abbrev pub to_hex : PublicKey → List ℕ
  to_hex k = x.encode k

  -- 32 bytes of hex, with white space around them allowed, that are a point of the curve
  unfoldable pub from_hex : Ed25519 → List ℕ → Result CryptoError PublicKey
  from_hex ed s = do
    bytes ← ok_or (x.decode (trim s)) malformed_key
    fail_if (not (nat_eq (length bytes) 32)) malformed_key
    fail_if (not (ed.valid_key bytes)) malformed_key
    ok bytes

-- The private half is the 32-byte seed.
pub record KeyPair : Type 0 where
  pub signing_key : List ℕ

module _ (ed : Ed25519) where
  unfoldable pub public_key : KeyPair → PublicKey
  public_key k = ed.public_of k.signing_key

  unfoldable pub sign : KeyPair → List ℕ → List ℕ
  sign k message = ed.sign k.signing_key message

  unfoldable pub verify : PublicKey → List ℕ → List ℕ → Result CryptoError (Unit {0})
  verify key message signature = do
    fail_if (not (ed.valid_key key)) malformed_key
    fail_if (not (ed.check key message signature)) invalid_signature
    ok tt

pub record KeyCertificate : Type 0 where
  pub child_key : PublicKey
  pub issued_at : ℕ
  pub signature : List ℕ

-- `child_key || issued_at.to_be_bytes()`
unfoldable pub signing_bytes : PublicKey → ℕ → List ℕ
unfolding to_be_bytes
signing_bytes child issued_at = child ++ to_be_bytes 8 issued_at

module _ (ed : Ed25519) where
  unfoldable pub issue : KeyPair → PublicKey → ℕ → KeyCertificate
  issue parent child issued_at = record {
    child_key = child;
    issued_at = issued_at;
    signature = sign ed parent (signing_bytes child issued_at);
  }

  unfoldable pub verify_against : KeyCertificate → PublicKey → Result CryptoError (Unit {0})
  verify_against c parent = verify ed parent (signing_bytes c.child_key c.issued_at) c.signature
