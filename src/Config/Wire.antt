-- ===== src/Config/Wire.antt =====
-- crates/config/src/lib.rs: the payload of a bundle, the errors, and the JSON codec as an interface.
use vpn.Prelude.{ℕ, String, ◌≡◌, List, Option, some}

pub data ConfigError : Type 0 where
  invalid_signature invalid_cert_chain : ConfigError
  expired : ℕ → ℕ → ConfigError
  not_yet_valid : ℕ → ℕ → ConfigError
  unsupported_schema_version : ℕ → ConfigError
  revoked_key malformed_payload : ConfigError

pub record EndpointDescriptor : Type 0 where
  pub id : String
  pub transport : String
  pub address : String
  pub provider_tag : String
  pub capabilities : List String
  pub cert_sha256_hex : String

pub record RelayBundlePayload : Type 0 where
  pub schema_version : ℕ
  pub issued_at : ℕ
  pub expires_at : ℕ
  pub nonce : String
  pub endpoints : List EndpointDescriptor

-- What the crate uses of `serde_json` for payloads.
pub record PayloadJson : Type 0 where
  pub to_vec : RelayBundlePayload → Option (List ℕ)
  pub from_slice : List ℕ → Option RelayBundlePayload

-- What is written parses to itself.
pub record PayloadJsonLaws (json : PayloadJson) : Type 0 where
  pub from_slice-to_vec :
      (p : RelayBundlePayload) (bytes : List ℕ)
      → json.to_vec p ≡ some bytes
      → json.from_slice bytes ≡ some p
