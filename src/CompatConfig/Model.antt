-- ===== src/CompatConfig/Model.antt =====
-- crates/compat-config/src/model.rs and lib.rs: a compatibility user, and the crate's errors.
use vpn.Prelude.{ℕ, ◌≡◌, String, Bool, true, ◌&&◌, ltb, List, Option, none, some}

pub data CompatError : Type 0 where
  io parse config_validation_failed wrong_transport_for_endpoint : CompatError
  -- the version that was found, and the newest that is supported
  unsupported_schema : ℕ → ℕ → CompatError

-- Instants are `i64` seconds; those of the model are not negative.
pub record CompatUser : Type 0 where
  pub id : String
  pub name : String
  pub enabled : Bool
  pub vless_uuid : String
  pub hysteria2_password : String
  pub subscription_token_hash_hex : String
  pub created_at : ℕ
  pub expires_at : Option ℕ

-- no expiry counts as one that is never reached
unfoldable pub is_active : CompatUser → ℕ → Bool
is_active u now_unix = u.enabled && elim u.expires_at [ none ↦ true | some exp ↦ ltb now_unix exp ]

pub data CompatTransport : Type 0 where
  vless_reality hysteria2 : CompatTransport

-- what a client may know of an endpoint
pub data PublicParameters : Type 0 where
  -- the public key, the short id and the fingerprint of a browser
  reality : String → String → String → PublicParameters
  -- the password of the obfuscation
  hysteria2_parameters : Option String → PublicParameters

pub record CompatEndpoint : Type 0 where
  pub id : String
  pub transport : CompatTransport
  pub host : String
  pub port : ℕ
  pub server_name : Option String
  pub label : String
  pub public_parameters : PublicParameters

-- What the server side of REALITY is configured with.
pub record RealityServerParams : Type 0 where
  pub private_key_hex : String
  pub public_key_hex : String
  pub short_ids : List String
  pub handshake_server : String
  pub handshake_port : ℕ

-- What the server side of Hysteria2 is configured with.
pub record Hysteria2ServerParams : Type 0 where
  pub tls_cert_path : String
  pub tls_key_path : String
  pub obfs_password : Option String
  pub masquerade_dir_path : Option String
  pub up_mbps : Option ℕ
  pub down_mbps : Option ℕ

pub record UsersFile : Type 0 where
  pub schema_version : ℕ
  pub users : List CompatUser

-- What the crate uses of `serde_json`: the envelope, and the bare list of older files.
pub record UsersJson : Type 0 where
  pub to_vec_pretty : UsersFile → Option (List ℕ)
  pub file_from_slice : List ℕ → Option UsersFile
  pub list_from_slice : List ℕ → Option (List CompatUser)

-- An envelope that is written parses to itself.
pub record UsersJsonLaws (json : UsersJson) : Type 0 where
  pub from_slice-to_vec :
      (u : UsersFile) (bytes : List ℕ)
      → json.to_vec_pretty u ≡ some bytes
      → json.file_from_slice bytes ≡ some u
