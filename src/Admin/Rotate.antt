-- ===== src/Admin/Rotate.antt =====
-- apps/admin/src/main.rs: the rotation of the REALITY keys, as a transaction over their files, the
-- configuration and the two services.
pub mod Files
pub mod Rollback
pub mod Command
use vpn.Prelude.{
  ℕ, String, string_Eq, Bool, true, false, ◌&&◌, if◌then◌else◌, List, [], ◌∷◌, Option, none, some,
  Result, ok, err, lookup, insert,
}
use vpn.CompatConfig.Model.{CompatError, io}
use vpn.CompatConfig.Disk.{
  File, Disk, Host, and_then, write_file_mode, chmod, chown, remove, remove_file,
  preserve_ownership_before_rename, rename,
}

-- a key file and what a rotation puts into it
pub record KeyFile : Type 0 where
  pub path : String
  pub candidate : List ℕ

-- `rotate_backup_path` and the temporary name of a new key file: a path with a suffix
pub record Names : Type 0 where
  pub bak : String → String
  pub rotate_tmp : String → String

pub data BackupError : Type 0 where
  stale_backup backup_failed : BackupError

module _ (h : Host) (n : Names) where
  -- the backup that `create_new` makes, before its mode and owner are set
  abbrev pub created : List ℕ → File
  created bytes = record {
    bytes = bytes;
    mode = h.masked 384;
    uid = h.process_uid;
    gid = h.process_gid;
  }

  -- the backup in the mode of the original, and with its owner if that can be set
  abbrev pub dressed : File → File
  dressed src = elim h.chown_ok [
    | true ↦ record (created src.bytes) { mode = src.mode; uid = src.uid; gid = src.gid }
    | false ↦ record (created src.bytes) { mode = src.mode }
  ]

  unfoldable pub copy_to_backup : File → String → Disk → Result BackupError Bool × Disk
  copy_to_backup src bak d = elim (h.short_write bak) [
    | some part ↦ (err backup_failed, insert bak (created part) d)
    | none ↦
        if h.chmod_ok
        then (ok true, insert bak (dressed src) d)
        else (err backup_failed, insert bak (created src.bytes) d)
  ]

  -- whether there was a file to back up
  unfoldable pub backup_for_rotate : String → Disk → Result BackupError Bool × Disk
  unfolding copy_to_backup
  backup_for_rotate path d = elim (lookup (n.bak path) d) [
    | some _ ↦ (err stale_backup, d)
    | none ↦ elim (lookup path d) [
      | none ↦ (ok false, d)
      | some src ↦ if h.read_ok 3 then copy_to_backup src (n.bak path) d else (err backup_failed, d)
    ]
  ]

  unfoldable pub restore_from_rotate_backup : String → Disk → Result CompatError (Unit {0}) × Disk
  restore_from_rotate_backup path d = elim (lookup (n.bak path) d) [
    | some _ ↦ rename h (n.bak path) path d
    | none ↦ (ok tt, d)
  ]

  -- removal of a file, which need not be there
  unfoldable pub remove_if_there : String → Disk → Result CompatError (Unit {0}) × Disk
  remove_if_there path d = elim (lookup path d) [
    | none ↦ (ok tt, d)
    | some _ ↦ if h.unlink_ok then (ok tt, remove path d) else (err io, d)
  ]

  unfoldable pub remove_rotate_backup : String → Disk → Disk
  unfolding remove_file
  remove_rotate_backup path d = remove_file h (n.bak path) d

  -- the new file takes the mode and the owner of the one before
  unfoldable pub keep_mode : String → String → Disk → Result CompatError (Unit {0}) × Disk
  unfolding chmod
  keep_mode tmp target d = elim (lookup target d) [
    | none ↦ (ok tt, d)
    | some meta ↦ chmod h tmp meta.mode d
  ]

  unfoldable pub install_rotated_key_file :
      String → List ℕ → Disk → Result CompatError (Unit {0}) × Disk
  unfolding keep_mode
  install_rotated_key_file target contents d =
      let tmp = n.rotate_tmp target in
      and_then (write_file_mode h tmp contents 384 d) λ d1.
        and_then (keep_mode tmp target d1)
          λ d2. and_then (preserve_ownership_before_rename h tmp target d2) (rename h tmp target)

  -- The backups of all the files, and which of them were there. One that fails takes back those that
  -- were made.
  unfoldable pub backup_all : List KeyFile → Disk → Result BackupError (List Bool) × Disk
  unfolding backup_for_rotate remove_rotate_backup
  backup_all [] d = (ok [], d)
  backup_all (k ∷ ks) d =
      let (backed, d1) = backup_for_rotate k.path d in
      elim backed [
        | err e ↦ (err e, d1)
        | ok existed ↦
            let (rest, d2) = backup_all ks d1 in
            elim rest [
              | ok more ↦ (ok (existed ∷ more), d2)
              | err e ↦ (err e, if existed then remove_rotate_backup k.path d2 else d2)
            ]
      ]

  unfoldable pub install_all : List KeyFile → Disk → Result CompatError (Unit {0}) × Disk
  unfolding install_rotated_key_file
  install_all [] d = (ok tt, d)
  install_all (k ∷ ks) d =
      let (installed, d1) = install_rotated_key_file k.path k.candidate d in
      let rest = install_all ks d1 in elim installed [ err e ↦ (err e, d1) | ok _ ↦ rest ]

  unfoldable pub roll_back_file : String → Bool → Disk → Bool × Disk
  unfolding restore_from_rotate_backup remove_if_there
  roll_back_file path existed d =
      let (undone, d') =
        (if existed then restore_from_rotate_backup path d else remove_if_there path d) in
      elim undone [ ok _ ↦ (true, d') | err _ ↦ (false, d') ]

  -- every file is put back, whether or not the others could be
  unfoldable pub roll_back_files : List KeyFile → List Bool → Disk → Bool × Disk
  unfolding roll_back_file
  roll_back_files [] existed d = (true, d)
  roll_back_files (k ∷ ks) [] d = (true, d)
  roll_back_files (k ∷ ks) (was ∷ existed) d =
      let (undone, d1) = roll_back_file k.path was d in
      let (rest, d2) = roll_back_files ks existed d1 in (undone && rest, d2)

  unfoldable pub remove_backups : List KeyFile → Disk → Disk
  unfolding remove_rotate_backup
  remove_backups [] d = d
  remove_backups (k ∷ ks) d = remove_backups ks (remove_rotate_backup k.path d)
