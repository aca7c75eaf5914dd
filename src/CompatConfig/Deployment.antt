-- ===== src/CompatConfig/Deployment.antt =====
-- crates/compat-config/src/deployment.rs: validation of `deployment.toml`, and its migration as a text.
-- The file's text is its bytes; the white space of a line is that of ASCII.
pub mod Laws
pub mod Patched
pub mod Settings
use vpn.Prelude.{
  ℕ, String, Bool, true, false, not, ◌&&◌, ◌||◌, ltb, nat_eq, if◌then◌else◌, List, [], ◌∷◌, ◌++◌,
  Option, none, some, Result, ok, err, ◌>>=◌, ◌>>◌, fail_if, ok_or, lookup, string_Eq, nat_Eq, ◌==◌,
  list_beq,
}
use vpn.Common.Framing.{is_utf8}
use vpn.Crypto.Hex.{trim_start}
use vpn.CompatConfig.Model.{CompatError, io, parse, unsupported_schema}
use vpn.CompatConfig.Disk.{Disk, Host, and_then, read, atomic_write, backup_before_mutate}

abbrev pub deployment_schema_version : ℕ
deployment_schema_version = 1

pub record RealitySection : Type 0 where
  pub listen_port : ℕ
  pub handshake_server : String
  pub handshake_port : ℕ

pub record Hysteria2Section : Type 0 where
  pub listen_port : ℕ
  pub up_mbps : Option ℕ
  pub down_mbps : Option ℕ

pub record SubscriptionSection : Type 0 where
  pub listen_port : ℕ
  pub public_port : ℕ

pub record UdpProbeSection : Type 0 where
  pub ipv4_resolvers : List String
  pub ipv6_resolvers : List String
  pub retries : ℕ
  pub timeout_ms : ℕ
  pub delay_ms : ℕ

pub record DeploymentConfig : Type 0 where
  pub schema_version : ℕ
  pub public_host : String
  pub subscription_host : String
  pub reality : RealitySection
  pub hysteria2 : Hysteria2Section
  pub subscription : SubscriptionSection
  pub udp_probe : Option UdpProbeSection
  pub state_dir : String
  pub singbox_binary : String

-- what the crate uses of `toml`
pub record Toml : Type 0 where
  pub from_str : List ℕ → Option DeploymentConfig

unfoldable pub same_option {ℓ} : {A : Type ℓ} → (A → A → Bool) → Option A → Option A → Bool
same_option same none none = true
same_option same (some a) (some b) = same a b
same_option same _ _ = false

unfoldable pub same_reality : RealitySection → RealitySection → Bool
same_reality a b =
    (a.listen_port == b.listen_port)
    && (a.handshake_server == b.handshake_server)
    && (a.handshake_port == b.handshake_port)

unfoldable pub same_hysteria2 : Hysteria2Section → Hysteria2Section → Bool
unfolding same_option
same_hysteria2 a b =
    (a.listen_port == b.listen_port)
    && same_option nat_eq a.up_mbps b.up_mbps
    && same_option nat_eq a.down_mbps b.down_mbps

unfoldable pub same_subscription : SubscriptionSection → SubscriptionSection → Bool
same_subscription a b = (a.listen_port == b.listen_port) && (a.public_port == b.public_port)

unfoldable pub same_probe : UdpProbeSection → UdpProbeSection → Bool
same_probe a b =
    list_beq a.ipv4_resolvers b.ipv4_resolvers
    && list_beq a.ipv6_resolvers b.ipv6_resolvers
    && (a.retries == b.retries)
    && (a.timeout_ms == b.timeout_ms)
    && (a.delay_ms == b.delay_ms)

-- The values of both configurations as JSON are equal once `schema_version` is removed: every other
-- field is.
unfoldable pub same_settings : DeploymentConfig → DeploymentConfig → Bool
unfolding same_reality same_hysteria2 same_subscription same_option same_probe
same_settings a b =
    (a.public_host == b.public_host)
    && (a.subscription_host == b.subscription_host)
    && same_reality a.reality b.reality
    && same_hysteria2 a.hysteria2 b.hysteria2
    && same_subscription a.subscription b.subscription
    && same_option same_probe a.udp_probe b.udp_probe
    && (a.state_dir == b.state_dir)
    && (a.singbox_binary == b.singbox_binary)

pub data DeploymentMigrationOutcome : Type 0 where
  missing already_current : DeploymentMigrationOutcome
  migrated : String → DeploymentMigrationOutcome

-- `UdpProbeSection::default`
abbrev pub default_udp_probe : UdpProbeSection
default_udp_probe = record {
  ipv4_resolvers = "1.1.1.1" ∷ "8.8.8.8" ∷ [];
  ipv6_resolvers = "2606:4700:4700::1111" ∷ "2001:4860:4860::8888" ∷ [];
  retries = 2;
  timeout_ms = 2000;
  delay_ms = 250;
}

unfoldable pub udp_probe_config : DeploymentConfig → UdpProbeSection
udp_probe_config c = elim c.udp_probe [ none ↦ default_udp_probe | some s ↦ s ]

unfoldable pub is_some : Option ℕ → Bool
is_some none = false
is_some (some _) = true

unfoldable pub validate : DeploymentConfig → Result CompatError (Unit {0})
unfolding is_some
validate c = do
  fail_if (ltb deployment_schema_version c.schema_version)
      (unsupported_schema c.schema_version deployment_schema_version)
  fail_if
      ((is_some c.hysteria2.up_mbps && not (is_some c.hysteria2.down_mbps))
        || (not (is_some c.hysteria2.up_mbps) && is_some c.hysteria2.down_mbps))
      parse
  ok tt

abbrev pub push_char : ℕ → List (List ℕ) → List (List ℕ)
push_char c [] = (c ∷ []) ∷ []
push_char c (l ∷ ls) = (c ∷ l) ∷ ls

-- `str::lines`
unfoldable pub lines : List ℕ → List (List ℕ)
lines [] = []
lines (c ∷ cs) = let rest = lines cs in if nat_eq c 10 then [] ∷ rest else push_char c rest

unfoldable pub starts_with : List ℕ → List ℕ → Bool
starts_with [] text = true
starts_with (p ∷ ps) [] = false
starts_with (p ∷ ps) (c ∷ cs) = nat_eq p c && starts_with ps cs

-- "schema_version"
abbrev pub version_key : List ℕ
version_key = 115 ∷ 99 ∷ 104 ∷ 101 ∷ 109 ∷ 97 ∷ 95 ∷ 118 ∷ 101 ∷ 114 ∷ 115 ∷ 105 ∷ 111 ∷ 110 ∷ []

unfoldable pub any_versioned : List (List ℕ) → Bool
unfolding starts_with trim_start
any_versioned [] = false
any_versioned (l ∷ ls) = starts_with version_key (trim_start l) || any_versioned ls

-- the line " = 1" goes behind the key, before the text
unfoldable pub migrate_deployment_toml_text : List ℕ → Option (List ℕ)
unfolding any_versioned lines
migrate_deployment_toml_text original =
    if any_versioned (lines original)
    then none
    else some (version_key ++ (32 ∷ 61 ∷ 32 ∷ 49 ∷ 10 ∷ original))

module _ (h : Host) (toml : Toml) where
  unfoldable pub read_to_string : ℕ → String → Disk → Result CompatError (List ℕ)
  unfolding is_utf8
  read_to_string n path d = do bytes ← read h n path d; fail_if (not (is_utf8 bytes)) io; ok bytes

  -- `DeploymentConfig::load`
  unfoldable pub load : String → Disk → Result CompatError DeploymentConfig
  unfolding read_to_string validate
  load path d = do
    text ← read_to_string 0 path d
    cfg ← ok_or (toml.from_str text) parse
    validate cfg
    ok cfg

  -- the checks of a patched text against the configuration that it was made from
  unfoldable pub check_patched : DeploymentConfig → List ℕ → Result CompatError (List ℕ)
  unfolding validate same_settings
  check_patched original_cfg patched = do
    migrated_cfg ← ok_or (toml.from_str patched) parse
    validate migrated_cfg
    fail_if (not (nat_eq migrated_cfg.schema_version deployment_schema_version)) parse
    fail_if (not (same_settings original_cfg migrated_cfg)) parse
    ok patched

  -- the patched text that is to be written, if there is one
  unfoldable pub patch : String → Disk → Result CompatError (Option (List ℕ))
  unfolding read_to_string validate migrate_deployment_toml_text check_patched
  patch path d = do
    original ← read_to_string 0 path d
    original_cfg ← ok_or (toml.from_str original) parse
    validate original_cfg
    elim (migrate_deployment_toml_text original) [
      | none ↦ ok none
      | some patched ↦ check_patched original_cfg patched >>= λ p. ok (some p)
    ]

  -- the backup, and the file itself
  unfoldable pub apply_patch :
      String → List ℕ → Disk → Result CompatError DeploymentMigrationOutcome × Disk
  apply_patch path patched d =
      let (backed_up, d1) = backup_before_mutate h path d in
      elim backed_up [
        | err e ↦ (err e, d1)
        | ok backup_path ↦
            and_then (atomic_write h path patched 420 d1) λ d2. (ok (migrated backup_path), d2)
      ]

  unfoldable pub finish :
      String
      → Result CompatError (Option (List ℕ))
      → Disk
      → Result CompatError DeploymentMigrationOutcome × Disk
  unfolding apply_patch
  finish path (err e) d = (err e, d)
  finish path (ok none) d = (ok already_current, d)
  finish path (ok (some patched)) d = apply_patch path patched d

  unfoldable pub migrate_deployment_toml :
      String → Disk → Result CompatError DeploymentMigrationOutcome × Disk
  unfolding finish patch
  migrate_deployment_toml path d = elim (lookup path d) [
    | none ↦ (ok missing, d)
    | some _ ↦ finish path (patch path d) d
  ]
