-- ===== src/CompatConfig/Disk.antt =====
-- crates/compat-config/src/ownership.rs and migrate.rs: files with their mode and owner, and the
-- replacement of a file by way of a temporary one. What the kernel answers comes from the host.
pub mod Atomic
pub mod Backup
pub mod Replaced
use vpn.Prelude.{
  ℕ, ◌+◌, ◌≡◌, String, string_Eq, ◌==◌, Bool, true, false, if◌then◌else◌, List, [], ◌∷◌, Option,
  none, some, Result, ok, err, Map, lookup, insert,
}
use vpn.CompatConfig.Model.{CompatError, io}

pub record File : Type 0 where
  pub bytes : List ℕ
  pub mode : ℕ
  pub uid : ℕ
  pub gid : ℕ

abbrev pub Disk : Type 0
Disk = Map String File

-- The process, the directories around the state files, and how the calls of one operation turn out.
pub record Host : Type 0 where
  -- `Path::parent`, and the names beside a path for its temporary file and its backup
  pub parent : String → Option String
  pub tmp_of : String → String
  pub backup_of : String → String
  -- `metadata(..).gid()` of a directory, if it can be read
  pub dir_gid : String → Option ℕ
  pub process_uid : ℕ
  pub process_gid : ℕ
  -- a mode less the bits of the process's mask
  pub masked : ℕ → ℕ
  pub create_dir_ok : Bool
  pub dir_mode_ok : Bool
  pub chown_ok : Bool
  pub rename_ok : Bool
  pub chmod_ok : Bool
  pub unlink_ok : Bool
  -- the nth read of an operation
  pub read_ok : ℕ → Bool
  -- what a write that fails leaves at a path
  pub short_write : String → Option (List ℕ)

abbrev pub remove : String → Disk → Disk
remove p [] = []
remove p ((q, x) ∷ d) = let rest = remove p d in if q == p then rest else (q, x) ∷ rest

-- An operation after another, if that succeeded.
abbrev pub and_then {ℓ} :
    {A : Type ℓ}
    → Result CompatError (Unit {0}) × Disk
    → (Disk → Result CompatError A × Disk)
    → Result CompatError A × Disk
and_then (ok _, d) k = k d
and_then (err e, d) k = (err e, d)

abbrev pub outcome : Bool → Result CompatError (Unit {0})
outcome true = ok tt
outcome false = err io

module _ (h : Host) where
  -- the file that `open` gives: one that is there keeps its mode and owner
  unfoldable pub opened : String → ℕ → Disk → File
  opened path mode d = elim (lookup path d) [
    | some file ↦ file
    | none ↦ record { bytes = []; mode = h.masked mode; uid = h.process_uid; gid = h.process_gid }
  ]

  -- `write_file_mode`: create or truncate, and write everything
  unfoldable pub write_file_mode : String → List ℕ → ℕ → Disk → Result CompatError (Unit {0}) × Disk
  unfolding opened
  write_file_mode path bytes mode d = elim (h.short_write path) [
    | none ↦ (ok tt, insert path (record (opened path mode d) { bytes = bytes }) d)
    | some part ↦ (err io, insert path (record (opened path mode d) { bytes = part }) d)
  ]

  unfoldable pub read : ℕ → String → Disk → Result CompatError (List ℕ)
  read n path d =
      if h.read_ok n
      then elim (lookup path d) [ none ↦ err io | some file ↦ ok file.bytes ]
      else err io

  unfoldable pub chown : String → ℕ → ℕ → Disk → Result CompatError (Unit {0}) × Disk
  chown path uid gid d = elim (lookup path d) [
    | none ↦ (err io, d)
    | some file ↦
        if h.chown_ok
        then (ok tt, insert path (record file { uid = uid; gid = gid }) d)
        else (err io, d)
  ]

  -- the owner of a target that is not there yet: that of the temporary file, in the directory's group
  unfoldable pub own_as_parent :
      String → Option String → Disk → Result CompatError (Unit {0}) × Disk
  unfolding chown
  own_as_parent tmp none d = (ok tt, d)
  own_as_parent tmp (some dir) d = elim (lookup tmp d) [
    | none ↦ (err io, d)
    | some file ↦ elim (h.dir_gid dir) [ none ↦ (err io, d) | some gid ↦ chown tmp file.uid gid d ]
  ]

  unfoldable pub preserve_ownership_before_rename :
      String → String → Disk → Result CompatError (Unit {0}) × Disk
  unfolding chown own_as_parent
  preserve_ownership_before_rename tmp target d = elim (lookup target d) [
    | some meta ↦ chown tmp meta.uid meta.gid d
    | none ↦ own_as_parent tmp (h.parent target) d
  ]

  -- `rename`: the file keeps its mode and owner
  unfoldable pub rename : String → String → Disk → Result CompatError (Unit {0}) × Disk
  rename source target d = elim (lookup source d) [
    | none ↦ (err io, d)
    | some file ↦ if h.rename_ok then (ok tt, insert target file (remove source d)) else (err io, d)
  ]

  -- a temporary file is written, given the target's owner, and renamed to it
  unfoldable pub replace : String → List ℕ → ℕ → Disk → Result CompatError (Unit {0}) × Disk
  unfolding write_file_mode preserve_ownership_before_rename rename
  replace path bytes mode d =
      let tmp = h.tmp_of path in
      and_then (write_file_mode tmp bytes mode d)
        λ d1. and_then (preserve_ownership_before_rename tmp path d1) λ d2. rename tmp path d2

  -- `copy`: the target gets the bytes and the mode of the source
  unfoldable pub copy : String → String → Disk → Result CompatError (Unit {0}) × Disk
  unfolding opened
  copy source target d = elim (lookup source d) [
    | none ↦ (err io, d)
    | some original ↦
        if h.read_ok 3
        then elim (h.short_write target) [
          | none ↦ (
            ok tt,
            insert target
                (record (opened target original.mode d) {
                  bytes = original.bytes;
                  mode = original.mode;
                })
                d,
          )
          | some part ↦ (
            err io,
            insert target
                (record (opened target original.mode d) { bytes = part; mode = original.mode }) d,
          )
        ]
        else (err io, d)
  ]

  -- `set_permissions`
  unfoldable pub chmod : String → ℕ → Disk → Result CompatError (Unit {0}) × Disk
  chmod path mode d = elim (lookup path d) [
    | none ↦ (err io, d)
    | some file ↦
        if h.chmod_ok then (ok tt, insert path (record file { mode = mode }) d) else (err io, d)
  ]

  -- `let _ = remove_file(..)`
  unfoldable pub remove_file : String → Disk → Disk
  remove_file path d = if h.unlink_ok then remove path d else d

  unfoldable pub create_parent : String → Result CompatError (Unit {0})
  create_parent path = elim (h.parent path) [ none ↦ ok tt | some dir ↦ outcome h.create_dir_ok ]

  unfoldable pub atomic_write : String → List ℕ → ℕ → Disk → Result CompatError (Unit {0}) × Disk
  unfolding create_parent replace
  atomic_write path bytes mode d = and_then (create_parent path, d) (replace path bytes mode)

  unfoldable pub backup_before_mutate : String → Disk → Result CompatError String × Disk
  unfolding read write_file_mode
  backup_before_mutate path d =
      let backup_path = h.backup_of path in
      elim (read 2 path d) [
        | err e ↦ (err e, d)
        | ok bytes ↦ and_then (write_file_mode backup_path bytes 384 d) λ d'. (ok backup_path, d')
      ]
