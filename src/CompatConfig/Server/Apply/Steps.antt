-- ===== src/CompatConfig/Server/Apply/Steps.antt =====
-- What the steps of replacing a configuration keep (crates/compat-config/src/server.rs).
use vpn.Prelude.{
  ℕ, ◌≡◌, ◌≢◌, inl, inr, refl, String, string_Eq, some, ok, err, lookup, arith, Result-cases,
  Option-cases,
}
use vpn.CompatConfig.Model.{CompatError}
use vpn.CompatConfig.Disk.{
  File, Disk, Host, opened, copy, chmod, remove_file, preserve_ownership_before_rename,
}
use vpn.CompatConfig.Disk.Atomic.{
  lookup-insert_ne, lookup-insert_eq, lookup-remove, preserve-other, rename-other, rename_failed,
}
use vpn.CompatConfig.Server.Apply.{SingBox, keep_backup, swap_in}

module _ (h : Host) where
  pub copy-other :
      (source target q : String) (d : Disk)
      → target ≢ q
      → lookup q (copy h source target d).1 ≡ lookup q d
  unfolding copy
  copy-other source target q d ne = elim (Option-cases (lookup source d)) [
    | inl e ↦ ground arith
    | inr (file, e) ↦ elim (Option-cases (h.short_write target)) [
      | inl e' ↦ ground (
        arith,
        lookup-insert_ne target q
            (record (opened h target file.mode d) { bytes = file.bytes; mode = file.mode }) d ne,
      )
      | inr (part, e') ↦ ground (
        arith,
        lookup-insert_ne target q
            (record (opened h target file.mode d) { bytes = part; mode = file.mode }) d ne,
      )
    ]
  ]

  pub copy-copied :
      (source target : String) (d : Disk) (file : File)
      → lookup source d ≡ some file
      → (copy h source target d).0 ≡ ok tt
      → lookup target (copy h source target d).1
        ≡ some (record (opened h target file.mode d) { bytes = file.bytes; mode = file.mode })
  unfolding copy
  copy-copied source target d file e done = elim (Option-cases (h.short_write target)) [
    | inl e' ↦ ground (
      arith,
      lookup-insert_eq target
          (record (opened h target file.mode d) { bytes = file.bytes; mode = file.mode }) d,
    )
    | inr (part, e') ↦ absurd (ground arith)
  ]

  pub chmod-other :
      (path q : String) (mode : ℕ) (d : Disk)
      → path ≢ q
      → lookup q (chmod h path mode d).1 ≡ lookup q d
  unfolding chmod
  chmod-other path q mode d ne = elim (Option-cases (lookup path d)) [
    | inl e ↦ ground arith
    | inr (file, e) ↦ ground (arith, lookup-insert_ne path q (record file { mode = mode }) d ne)
  ]

  pub chmod-moded :
      (path : String) (mode : ℕ) (d : Disk) (file : File)
      → lookup path d ≡ some file
      → (chmod h path mode d).0 ≡ ok tt
      → lookup path (chmod h path mode d).1 ≡ some (record file { mode = mode })
  unfolding chmod
  chmod-moded path mode d file e done =
      ground (arith, lookup-insert_eq path (record file { mode = mode }) d)

  pub remove_file-other :
      (path q : String) (d : Disk) → path ≢ q → lookup q (remove_file h path d) ≡ lookup q d
  unfolding remove_file
  remove_file-other path q d ne = ground (arith, lookup-remove path q d, string_Eq.beq_iff path q)

module _ (h : Host) (box : SingBox) where
  pub keep_backup-other :
      (target q : String) (d : Disk)
      → h.backup_of target ≢ q
      → lookup q (keep_backup h box target d).1 ≡ lookup q d
  unfolding keep_backup
  keep_backup-other target q d ne =
      let b = h.backup_of target in
      let c = copy h target b d in
      elim (Option-cases (lookup target d)) [
        | inl e ↦ ground arith
        | inr (file, e) ↦ ground (arith, copy-other h target b q d ne, chmod-other h b q 416 c.1 ne)
      ]

  -- the backup has the bytes of the live file, in mode 0640
  pub keep_backup-kept :
      (target : String) (d : Disk) (old : File)
      → lookup target d ≡ some old
      → (keep_backup h box target d).0 ≡ ok tt
      → (b : File) × (lookup (h.backup_of target) (keep_backup h box target d).1 ≡ some b)
        × (b.bytes ≡ old.bytes)
        × (b.mode ≡ 416)
  unfolding keep_backup
  keep_backup-kept target d old e done =
      let b = h.backup_of target in
      let c = copy h target b d in
      elim (Result-cases c.0) [
        | inr (x, e') ↦ absurd (ground arith)
        | inl (_, e') ↦
            let file = record (opened h b old.mode d) { bytes = old.bytes; mode = 416 } in
            let copied = copy-copied h target b d old e e' in
            let changed =
              chmod-moded h b 416 c.1
                (record (opened h b old.mode d) { bytes = old.bytes; mode = old.mode }) copied in
            (file, ground (arith, changed), refl, refl)
      ]

  pub swap_in-other :
      (tmp target q : String) (d : Disk)
      → tmp ≢ q
      → target ≢ q
      → h.backup_of target ≢ q
      → lookup q (swap_in h box tmp target d).1 ≡ lookup q d
  unfolding swap_in
  swap_in-other tmp target q d ne1 ne2 ne3 =
      let k = keep_backup h box target d in
      let o = preserve_ownership_before_rename h tmp target k.1 in
      ground (
        arith,
        keep_backup-other target q d ne3,
        preserve-other h tmp target q k.1 ne1,
        rename-other h tmp target q o.1 ne1 ne2,
      )

  pub swap_in_failed :
      (tmp target : String) (d : Disk) (x : CompatError)
      → tmp ≢ target
      → h.backup_of target ≢ target
      → (swap_in h box tmp target d).0 ≡ err x
      → lookup target (swap_in h box tmp target d).1 ≡ lookup target d
  unfolding swap_in
  swap_in_failed tmp target d x ne1 ne2 failed =
      let k = keep_backup h box target d in
      let o = preserve_ownership_before_rename h tmp target k.1 in
      let after_backup = keep_backup-other target target d ne2 in
      let after_owner = preserve-other h tmp target target k.1 ne1 in
      elim (Result-cases k.0) [
        | inr (y, e) ↦ ground (arith, after_backup)
        | inl (_, e) ↦ elim (Result-cases o.0) [
          | inr (y, e') ↦ ground (arith, after_backup, after_owner)
          | inl (_, e') ↦
              ground (arith, after_backup, after_owner, rename_failed h tmp target o.1 {x = x})
        ]
      ]
