-- ===== src/Crypto/Dalek.antt =====
-- What crates/crypto uses of the `ed25519-dalek` crate, as an interface on bytes.
use vpn.Prelude.{ℕ, ◌≡◌, Bool, true, List, list_Eq, nat_Eq}

pub record Ed25519 : Type 0 where
  -- the public key of a seed
  pub public_of : List ℕ → List ℕ
  pub sign : List ℕ → List ℕ → List ℕ
  -- `VerifyingKey::from_bytes` succeeds
  pub valid_key : List ℕ → Bool
  -- `verify` of a valid key succeeds
  pub check : List ℕ → List ℕ → List ℕ → Bool

-- A public key is valid, and verifies what its seed signs.
pub record Ed25519Laws (ed : Ed25519) : Type 0 where
  pub public_valid : (seed : List ℕ) → ed.valid_key (ed.public_of seed) ≡ true
  pub check-sign :
      (seed message : List ℕ) → ed.check (ed.public_of seed) message (ed.sign seed message) ≡ true
