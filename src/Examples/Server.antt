-- ===== src/Examples/Server.antt =====
-- Theorems on the configuration of sing-box (crates/compat-config/src/server.rs) for two users.
use vpn.Prelude.{
  ◌≡◌, ◌↔◌, refl, String, string_Eq, true, List, [], ◌∷◌, none, some, ok, err, lookup, nat_Eq,
}
use vpn.CompatConfig.Model.{
  CompatUser, RealityServerParams, Hysteria2ServerParams, config_validation_failed,
}
use vpn.CompatConfig.Disk.{Disk, Host}
use vpn.CompatConfig.Disk.Backup.{AreApart}
use vpn.CompatConfig.Server.{ServerPorts, render_singbox_server_config}
use vpn.CompatConfig.Server.Accepts.{accepts, IsAdmitted, render_admits}
use vpn.CompatConfig.Server.Apply.{SingBox, apply_config_atomically}
use vpn.CompatConfig.Server.Apply.Done.{IsApplied, apply_config_done}
use vpn.CompatConfig.Server.Apply.Laws.{apply_config_failed}
use vpn.Examples.Users.{host}

abbrev pub alice : CompatUser
alice = record {
  id = "user_a";
  name = "alice";
  enabled = true;
  vless_uuid = "uuid_a";
  hysteria2_password = "secret_a";
  subscription_token_hash_hex = "hash_a";
  created_at = 1;
  expires_at = none;
}

abbrev pub bob : CompatUser
bob = record alice {
  id = "user_b";
  vless_uuid = "uuid_b";
  hysteria2_password = "secret_b";
  subscription_token_hash_hex = "hash_b";
}

abbrev pub users : List CompatUser
users = alice ∷ bob ∷ []

abbrev pub params : RealityServerParams
params = record {
  private_key_hex = "private";
  public_key_hex = "public";
  short_ids = "0a1b2c3d" ∷ [];
  handshake_server = "www.example.com";
  handshake_port = 443;
}

abbrev pub hysteria2 : Hysteria2ServerParams
hysteria2 = record {
  tls_cert_path = "cert.pem";
  tls_key_path = "key.pem";
  obfs_password = some "obfs";
  masquerade_dir_path = none;
  up_mbps = some 100;
  down_mbps = some 80;
}

abbrev pub ports : ServerPorts
ports = record { vless_reality_port = 443; hysteria2_port = 8443 }

render_admits_example :
    ((accepts "vless" "uuid" "uuid_b" (render_singbox_server_config users params hysteria2 ports 9)
        ≡ true)
      ↔ IsAdmitted users 9 (λ u. u.vless_uuid) "uuid_b")
    × ((accepts "hysteria2" "password" "none"
            (render_singbox_server_config users params hysteria2 ports 9)
          ≡ true)
        ↔ IsAdmitted users 9 (λ u. u.hysteria2_password) "none")
render_admits_example = render_admits users params hysteria2 ports 9 "uuid_b" "none"

-- a program that passes every configuration, and one that passes none
abbrev pub box : SingBox
box = record { to_vec_pretty = λ v. some (5 ∷ []); check = λ bytes. ok tt }

abbrev pub strict : SingBox
strict = record box { check = λ bytes. err config_validation_failed }

abbrev pub config_host : Host
config_host = record host { tmp_of = λ p. "config.json.tmp.1"; backup_of = λ p. "config.json.bak" }

abbrev pub config : String
config = "config.json"

abbrev pub configured : Disk
configured = (config, record { bytes = 4 ∷ []; mode = 416; uid = 0; gid = 9 }) ∷ []

pub config_apart : AreApart config_host config
config_apart = record { tmp = λ h. cc; backup = λ h. cc; siblings = λ h. cc }

apply_config_done_example :
    IsApplied config_host box
      (render_singbox_server_config users params hysteria2 ports 9)
      config
      configured
      (apply_config_atomically config_host box
        (render_singbox_server_config users params hysteria2 ports 9)
        config
        configured).1
unfolding apply_config_atomically vpn.CompatConfig.Disk.create_parent
    vpn.CompatConfig.Disk.write_file_mode vpn.CompatConfig.Disk.preserve_ownership_before_rename
    vpn.CompatConfig.Disk.rename
apply_config_done_example =
    apply_config_done config_host box (render_singbox_server_config users params hysteria2 ports 9)
      config configured config_apart refl

apply_config_failed_example :
    lookup config
      (apply_config_atomically config_host strict
        (render_singbox_server_config users params hysteria2 ports 9)
        config
        configured).1
    ≡ lookup config configured
unfolding apply_config_atomically vpn.CompatConfig.Disk.create_parent
    vpn.CompatConfig.Disk.write_file_mode
apply_config_failed_example =
    apply_config_failed config_host strict
      (render_singbox_server_config users params hysteria2 ports 9) config configured
      config_validation_failed config_apart refl
