-- ===== src/CompatConfig/Disk/Backup.antt =====
-- The backup before a mutation, and the atomic write (crates/compat-config/src/migrate.rs).
use vpn.Prelude.{
  ℕ, ◌≡◌, ◌≢◌, inl, inr, String, string_Eq, List, some, ok, err, lookup, arith, Result-cases,
  Option-cases,
}
use vpn.CompatConfig.Model.{CompatError}
use vpn.CompatConfig.Disk.{
  File, Disk, Host, opened, read, replace, create_parent, atomic_write, backup_before_mutate,
}
use vpn.CompatConfig.Disk.Atomic.{write_file_mode-other, write_file_mode-written}
use vpn.CompatConfig.Disk.Replaced.{replace_failed}

module _ (h : Host) where
  pub backup_done :
      (path b : String) (d : Disk)
      → (backup_before_mutate h path d).0 ≡ ok b
      → (file : File) × (lookup path d ≡ some file)
        × (b ≡ h.backup_of path)
        × (lookup b (backup_before_mutate h path d).1
            ≡ some (record (opened h b 384 d) { bytes = file.bytes }))
  unfolding backup_before_mutate read
  backup_done path b d done = elim (Option-cases (lookup path d)) [
    | inl e ↦ absurd (ground arith)
    | inr (file, e) ↦
        let name : b ≡ h.backup_of path = ground arith in
        (file, e, name, ground (arith, write_file_mode-written h b file.bytes 384 d))
  ]

  pub backup-other :
      (path q : String) (d : Disk)
      → h.backup_of path ≢ q
      → lookup q (backup_before_mutate h path d).1 ≡ lookup q d
  unfolding backup_before_mutate
  backup-other path q d ne = elim (Result-cases (read h 2 path d)) [
    | inl (bytes, e) ↦ ground (arith, write_file_mode-other h (h.backup_of path) q bytes 384 d ne)
    | inr (x, e) ↦ ground arith
  ]

  pub atomic_write_failed :
      (path : String) (bytes : List ℕ) (mode : ℕ) (d : Disk) (x : CompatError)
      → h.tmp_of path ≢ path
      → (atomic_write h path bytes mode d).0 ≡ err x
      → lookup path (atomic_write h path bytes mode d).1 ≡ lookup path d
  unfolding atomic_write
  atomic_write_failed path bytes mode d x ne failed = elim (Result-cases (create_parent h path)) [
    | inl (_, e) ↦ ground (arith, replace_failed h path bytes mode d x ne)
    | inr (y, e) ↦ ground arith
  ]

  pub atomic_write_done :
      (path : String) (bytes : List ℕ) (mode : ℕ) (d : Disk)
      → (atomic_write h path bytes mode d).0 ≡ ok tt
      → atomic_write h path bytes mode d ≡ replace h path bytes mode d
  unfolding atomic_write
  atomic_write_done path bytes mode d done = ground arith

  -- the two sibling names differ from the path and from one another
  pub record AreApart (path : String) : Type 0 where
    pub tmp : h.tmp_of path ≢ path
    pub backup : h.backup_of path ≢ path
    pub siblings : h.tmp_of path ≢ h.backup_of path
