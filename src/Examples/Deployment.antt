-- ===== src/Examples/Deployment.antt =====
-- A theorem on the migration of the deployment file (crates/compat-config/src/deployment.rs) for a
-- small text.
use vpn.Prelude.{
  ℕ, ◌≡◌, refl, String, if◌then◌else◌, nat_Eq, list_beq, List, [], ◌∷◌, ◌++◌, none, some, ok,
}
use vpn.CompatConfig.Disk.{Disk}
use vpn.CompatConfig.Disk.Backup.{AreApart}
use vpn.CompatConfig.Deployment.{
  Toml, DeploymentConfig, migrated, migrate_deployment_toml, version_key,
}
use vpn.CompatConfig.Deployment.Laws.{IsMigrated, migrate_deployment_toml_done}
use vpn.Examples.Users.{host}

-- the configuration of a text without a version
abbrev legacy : DeploymentConfig
legacy = record {
  schema_version = 0;
  public_host = "vpn.example";
  subscription_host = "vpn.example";
  reality = record { listen_port = 443; handshake_server = "www.example"; handshake_port = 443 };
  hysteria2 = record { listen_port = 443; up_mbps = none; down_mbps = none };
  subscription = record { listen_port = 8080; public_port = 8443 };
  udp_probe = none;
  state_dir = "/etc/vpn/compat";
  singbox_binary = "/usr/local/bin/sing-box";
}

-- the text "a = 1"
abbrev text : List ℕ
text = 97 ∷ 32 ∷ 61 ∷ 32 ∷ 49 ∷ []

-- a parser that knows this text, with and without a line of the version before it
abbrev toml : Toml
toml = record {
  from_str = λ t.
      if list_beq t text
      then some legacy
      else if list_beq t (version_key ++ (32 ∷ 61 ∷ 32 ∷ 49 ∷ 10 ∷ text))
      then some (record legacy { schema_version = 1 })
      else none;
}

abbrev path : String
path = "deployment.toml"

abbrev disk : Disk
disk = (path, record { bytes = text; mode = 420; uid = 0; gid = 0 }) ∷ []

apart : AreApart host path
apart = record { tmp = λ h. cc; backup = λ h. cc; siblings = λ h. cc }

done : (migrate_deployment_toml host toml path disk).0 ≡ ok (migrated "users.json.bak")
unfolding migrate_deployment_toml vpn.CompatConfig.Disk.read vpn.Crypto.Hex.is_white
    vpn.CompatConfig.Disk.backup_before_mutate vpn.CompatConfig.Disk.atomic_write
done = refl

migrate_deployment_toml_done_example :
    IsMigrated host toml path "users.json.bak" disk (migrate_deployment_toml host toml path disk).1
migrate_deployment_toml_done_example =
    migrate_deployment_toml_done host toml path "users.json.bak" disk apart done
