-- ===== src/CompatConfig/Server/Apply.antt =====
-- crates/compat-config/src/server.rs: a configuration is written beside the live one, validated,
-- and swapped in; the one before is kept as a backup.
pub mod Steps
pub mod Laws
pub mod Done
use vpn.Prelude.{ℕ, String, string_Eq, List, Option, none, some, Result, ok, err, lookup}
use vpn.CompatConfig.Model.{CompatError, parse, config_validation_failed}
use vpn.CompatConfig.Disk.{
  Disk, Host, and_then, create_parent, write_file_mode, copy, chmod, remove_file,
  preserve_ownership_before_rename, rename,
}
use vpn.CompatConfig.Server.Json.{Value}

-- What is used of `serde_json` and of the sing-box program: printing a value, and whether
-- `sing-box check` passes the bytes of a file.
pub record SingBox : Type 0 where
  pub to_vec_pretty : Value → Option (List ℕ)
  pub check : List ℕ → Result CompatError (Unit {0})

module _ (h : Host) (box : SingBox) where
  -- `validate`: the check is run on the file at a path
  unfoldable pub validate : String → Disk → Result CompatError (Unit {0})
  validate path d = elim (lookup path d) [
    | none ↦ err config_validation_failed
    | some file ↦ box.check file.bytes
  ]

  -- `config_backup_path`: the path with `.bak` after its name
  abbrev pub config_backup_path : String → String
  config_backup_path path = h.backup_of path

  -- a live file is copied to its backup, in mode 0640
  unfoldable pub keep_backup : String → Disk → Result CompatError (Unit {0}) × Disk
  unfolding copy chmod
  keep_backup target d = elim (lookup target d) [
    | none ↦ (ok tt, d)
    | some _ ↦
        and_then (copy h target (config_backup_path target) d)
          (chmod h (config_backup_path target) 416)
  ]

  -- the swap of the temporary file that passed
  unfoldable pub swap_in : String → String → Disk → Result CompatError (Unit {0}) × Disk
  unfolding keep_backup
  swap_in tmp target d =
      and_then (keep_backup target d)
        λ d1. and_then (preserve_ownership_before_rename h tmp target d1) (rename h tmp target)

  unfoldable pub check_and_swap : String → String → Disk → Result CompatError (Unit {0}) × Disk
  unfolding validate swap_in
  check_and_swap tmp target d = elim (validate tmp d) [
    | err e ↦ (err e, remove_file h tmp d)
    | ok _ ↦ swap_in tmp target d
  ]

  unfoldable pub apply_config_atomically :
      Value → String → Disk → Result CompatError (Unit {0}) × Disk
  unfolding check_and_swap
  apply_config_atomically new_config target d =
      and_then (create_parent h target, d)
        λ d0. elim (box.to_vec_pretty new_config) [
          | none ↦ (err parse, d0)
          | some bytes ↦
              and_then (write_file_mode h (h.tmp_of target) bytes 416 d0)
                (check_and_swap (h.tmp_of target) target)
        ]
