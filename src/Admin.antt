-- ===== src/Admin.antt =====
-- apps/admin: the commands that change who may connect. What they find on the machine comes from a
-- record; the state is the disk and the configuration that sing-box was last told to load.
pub mod Service
pub mod Apply
pub mod Users
pub mod Archive
pub mod Rotate
pub mod Lock
use vpn.Prelude.{ℕ, ◌+◌, ◌*◌, ◌≤◌, ◌<◌, String, Bool, List, Option, none, some}
use vpn.CompatConfig.Model.{
  CompatUser, CompatError, UsersJson, RealityServerParams, Hysteria2ServerParams,
}
use vpn.CompatConfig.Disk.{Disk, Host}
use vpn.CompatConfig.Server.{ServerPorts}
use vpn.CompatConfig.Server.Apply.{SingBox}
use vpn.CompatConfig.Server.Json.{Value}

-- What a `systemctl` that ran has answered: its status, and whether it printed `loaded`.
pub record Output : Type 0 where
  pub success : Bool
  pub loaded : Bool

pub data RealitySelfTestOutcome : Type 0 where
  pass handshake_rejected inconclusive : RealitySelfTestOutcome

-- The machine that a command runs on.
pub record Machine : Type 0 where
  -- the disk's answers to the phases of a command, in their order
  pub host : ℕ → Host
  pub box : SingBox
  pub users_json : UsersJson
  -- what the nth start of `systemctl` gives, if it can be started
  pub spawn : ℕ → Option Output
  -- milliseconds between checks, and since a reload (by its number) at a round of its loop
  pub settle : ℕ
  pub elapsed : ℕ → ℕ → ℕ
  -- VPN1_ALLOW_OFFLINE_MUTATION=1
  pub offline_mutation_allowed : Bool
  pub singbox_binary_exists : Bool
  pub now : ℕ
  -- the key material that loads and is coherent, and the parameters of Hysteria2
  pub reality : Option RealityServerParams
  pub hysteria : Hysteria2ServerParams
  pub ports : ServerPorts
  pub users_file : String
  pub singbox_config_file : String
  -- `applied_config_stamp_path`, and the temporary file for it
  pub stamp_file : String
  pub stamp_tmp : String
  -- whether bytes parse to a value, and the digest of a value's text
  pub parses_to : List ℕ → Value → Bool
  pub fingerprint : Value → Option (List ℕ)
  -- the handshake of a test client, unless the harness fails
  pub run_reality_client_selftest : RealityServerParams → CompatUser → Option RealitySelfTestOutcome

pub record World : Type 0 where
  pub disk : Disk
  -- what the configuration file held at the last reload that `systemctl` carried out
  pub loaded : Option (List ℕ)
  -- the number of starts of `systemctl`
  pub calls : ℕ

pub data AdminError : Type 0 where
  load apply : CompatError → AdminError
  no_keyset no_binary no_service no_fingerprint stamp_failed no_such_user out_of_fuel : AdminError
  -- whether the configuration before is live again
  reload_failed handshake_failed : Bool → AdminError
  save_failed : CompatError → Bool → AdminError
