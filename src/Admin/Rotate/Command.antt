-- ===== src/Admin/Rotate/Command.antt =====
-- apps/admin/src/main.rs: `cmd_reality_rotate`.
pub mod Laws
pub mod Failed
pub mod Restored
pub mod Refused
use vpn.Prelude.{
  ℕ, String, string_Eq, Bool, true, false, not, ◌&&◌, if◌then◌else◌, List, [], ◌∷◌, Option, none,
  some, Result, ok, err, lookup,
}
use vpn.CompatConfig.Model.{CompatUser, CompatError, RealityServerParams, parse}
use vpn.CompatConfig.Disk.{Disk, Host, and_then, create_parent, write_file_mode, copy, remove_file}
use vpn.CompatConfig.Server.Apply.{validate, apply_config_atomically}
use vpn.CompatConfig.Server.Json.{Value}
use vpn.CompatConfig.Users.{load_users}
use vpn.Admin.{Machine, World}
use vpn.Admin.Service.{ReloadError, reload_and_verify}
use vpn.Admin.Apply.{
  document, service_available, HandshakeVerification, not_run, verify_reality_handshake_or_warn,
  is_rejected,
}
use vpn.Admin.Rotate.{
  KeyFile, Names, BackupError, backup_all, install_all, roll_back_files, remove_backups,
}

-- what `generate_reality_keypair` gives
pub record Candidate : Type 0 where
  pub private_key : String
  pub public_key : String
  pub short_id : String

-- The paths of a rotation, what the deployment says of the handshake, and the generated keys, if
-- sing-box gave any that are coherent.
pub record Rotation : Type 0 where
  pub names : Names
  pub private_key_file : String
  pub public_key_file : String
  pub short_id_file : String
  pub staged_file : String
  pub handshake_server : String
  pub handshake_port : ℕ
  pub as_bytes : String → List ℕ
  pub generated : Option Candidate

pub data RotateError : Type 0 where
  no_binary keygen_failed no_services : RotateError
  load stage : CompatError → RotateError
  backup : BackupError → RotateError
  -- whether the state before is back and the services run on it
  rotation_failed : Bool → RotateError

module _ (m : Machine) (r : Rotation) where
  -- the three files in the order of the rotation
  abbrev pub key_files : Candidate → List KeyFile
  key_files c =
      (record { path = r.private_key_file; candidate = r.as_bytes c.private_key })
      ∷ (record { path = r.public_key_file; candidate = r.as_bytes c.public_key })
      ∷ (record { path = r.short_id_file; candidate = r.as_bytes c.short_id })
      ∷ []

  abbrev pub candidate_reality : Candidate → RealityServerParams
  candidate_reality c = record {
    private_key_hex = c.private_key;
    public_key_hex = c.public_key;
    short_ids = c.short_id ∷ [];
    handshake_server = r.handshake_server;
    handshake_port = r.handshake_port;
  }

  unfoldable pub write_config_for_validation :
      Host → Value → Disk → Result CompatError (Unit {0}) × Disk
  write_config_for_validation h doc d =
      and_then (create_parent h r.staged_file, d)
        λ d0. elim (m.box.to_vec_pretty doc) [
          | none ↦ (err parse, d0)
          | some bytes ↦ write_file_mode h r.staged_file bytes 438 d0
        ]

  -- the staged document is checked and removed
  unfoldable pub validate_candidate : Host → Value → Disk → Result CompatError (Unit {0}) × Disk
  unfolding write_config_for_validation validate
  validate_candidate h doc d =
      let (staged, d1) = write_config_for_validation h doc d in
      let d2 = remove_file h r.staged_file d1 in
      elim staged [ err e ↦ (err e, d2) | ok _ ↦ (validate h m.box r.staged_file d1, d2) ]

  -- sing-box is reloaded if systemd has it
  unfoldable pub reload_live : World → Result ReloadError Bool × World
  unfolding service_available
  reload_live w =
      let (service, w1) = service_available m w in
      let (reloaded, w2) = reload_and_verify m w1 in
      if service
      then elim reloaded [ err e ↦ (err e, w2) | ok _ ↦ (ok true, w2) ]
      else (ok false, w1)

  -- the subscription service is restarted: what sing-box has loaded stays
  unfoldable pub restart_subscription : World → Result ReloadError Bool × World
  unfolding reload_live
  restart_subscription w =
      let (restarted, w1) = reload_live w in (restarted, record w1 { loaded = w.loaded })

  unfoldable pub recovered : Result ReloadError Bool → Bool
  recovered (ok _) = true
  recovered (err _) = false

  -- the backup of the configuration is copied over it
  unfoldable pub restore_config : Host → Disk → Bool × Disk
  unfolding copy
  restore_config h d = elim (lookup (h.backup_of m.singbox_config_file) d) [
    | none ↦ (false, d)
    | some _ ↦
        let (copied, d1) = copy h (h.backup_of m.singbox_config_file) m.singbox_config_file d in
        elim copied [ ok _ ↦ (true, d1) | err _ ↦ (false, d1) ]
  ]

  -- everything is tried, whether or not the rest worked
  unfoldable pub roll_back : List KeyFile → List Bool → Bool → World → Bool × World
  unfolding restore_config restart_subscription recovered
  roll_back ks existed config_applied w =
      let (files, d1) = roll_back_files (m.host 4) r.names ks existed w.disk in
      let (config, d2) = (if config_applied then restore_config (m.host 4) d1 else (true, d1)) in
      let (singbox, w1) = reload_live (record w { disk = d2 }) in
      let (subscription, w2) = restart_subscription w1 in
      (files && config && recovered singbox && recovered subscription, w2)

  unfoldable pub fail : List KeyFile → List Bool → Bool → World → Result RotateError Bool × World
  unfolding roll_back
  fail ks existed config_applied w =
      let (back, w1) = roll_back ks existed config_applied w in (err (rotation_failed back), w1)

  -- the handshake of a test client, if both services have loaded the new keys
  unfoldable pub try_handshake :
      List CompatUser → RealityServerParams → Bool → HandshakeVerification
  try_handshake users reality live =
      if live then verify_reality_handshake_or_warn m users reality else not_run

  -- the services take up the new keys
  unfoldable pub take_up :
      List KeyFile
      → List Bool
      → List CompatUser
      → RealityServerParams
      → World
      → Result RotateError Bool × World
  unfolding fail try_handshake
  take_up ks existed users reality w =
      let (reloaded, w1) = reload_live w in
      elim reloaded [
        | err _ ↦ fail ks existed true w1
        | ok singbox_live ↦
            let (restarted, w2) = restart_subscription w1 in
            elim restarted [
              | err _ ↦ fail ks existed true w2
              | ok subscription_live ↦
                  let live = singbox_live && subscription_live in
                  if is_rejected (try_handshake users reality live)
                  then fail ks existed true w2
                  else (ok live, record w2 { disk = remove_backups (m.host 3) r.names ks w2.disk })
            ]
      ]

  -- the new keys and the new configuration are put in place
  unfoldable pub put_in_place :
      List KeyFile
      → List Bool
      → List CompatUser
      → RealityServerParams
      → Value
      → World
      → Result RotateError Bool × World
  unfolding take_up
  put_in_place ks existed users reality doc w =
      let (installed, d1) = install_all (m.host 2) r.names ks w.disk in
      elim installed [
        | err _ ↦ fail ks existed false (record w { disk = d1 })
        | ok _ ↦
            let (applied, d2) =
              apply_config_atomically (m.host 3) m.box doc m.singbox_config_file d1 in
            let w1 = record w { disk = d2 } in
            elim applied [
              | err _ ↦ fail ks existed false w1
              | ok _ ↦ take_up ks existed users reality w1
            ]
      ]

  unfoldable pub rotate_keys :
      List KeyFile
      → List CompatUser
      → RealityServerParams
      → Value
      → World
      → Result RotateError Bool × World
  unfolding put_in_place
  rotate_keys ks users reality doc w =
      let (backed, d) = backup_all (m.host 1) r.names ks w.disk in
      let w1 = record w { disk = d } in
      elim backed [
        | err e ↦ (err (backup e), w1)
        | ok existed ↦ put_in_place ks existed users reality doc w1
      ]

  -- both services can be controlled
  unfoldable pub both_available : World → Bool × World
  both_available w =
      let (singbox, w1) = service_available m w in
      if singbox then service_available m w1 else (false, w1)

  -- whether the change may go on although it may not reach the services
  unfoldable pub may_mutate : World → Bool × World
  unfolding both_available
  may_mutate w = if m.offline_mutation_allowed then (true, w) else both_available w

  unfoldable pub rotate_to : Candidate → List CompatUser → World → Result RotateError Bool × World
  unfolding validate_candidate may_mutate rotate_keys
  rotate_to c users w =
      let doc = document m users (candidate_reality c) in
      let (checked, d) = validate_candidate (m.host 1) doc w.disk in
      let w1 = record w { disk = d } in
      elim checked [
        | err e ↦ (err (stage e), w1)
        | ok _ ↦
            let (may, w2) = may_mutate w1 in
            if may
            then rotate_keys (key_files c) users (candidate_reality c) doc w2
            else (err no_services, w2)
      ]

  unfoldable pub cmd_reality_rotate : World → Result RotateError Bool × World
  unfolding rotate_to
  cmd_reality_rotate w =
      if not m.singbox_binary_exists then (err no_binary, w) else elim r.generated [
        | none ↦ (err keygen_failed, w)
        | some c ↦ elim (load_users (m.host 0) m.users_json m.users_file w.disk) [
          | err e ↦ (err (load e), w)
          | ok users ↦ rotate_to c users w
        ]
      ]
