-- ===== src/CompatConfig/Disk/Atomic.antt =====
-- What each step of a replacement leaves at a path
-- (crates/compat-config/src/ownership.rs, migrate.rs and store.rs).
use vpn.Prelude.{
  ℕ, ◌≡◌, ◌≢◌, inl, inr, refl, String, string_Eq, ◌==◌, if◌then◌else◌, List, [], ◌∷◌, Option, none,
  some, ok, err, lookup, insert, lookup-insert, arith, Option-cases,
}
use vpn.CompatConfig.Model.{CompatError}
use vpn.CompatConfig.Disk.{
  File, Disk, Host, remove, opened, write_file_mode, chown, own_as_parent,
  preserve_ownership_before_rename, rename,
}

pub lookup-remove :
    (p q : String) (d : Disk) → lookup q (remove p d) ≡ (if p == q then none else lookup q d)
lookup-remove p q [] = ground arith
lookup-remove p q ((r, x) ∷ d) = ground (
  arith,
  string_Eq.beq_iff p q,
  string_Eq.beq_iff r p,
  string_Eq.beq_iff r q,
  lookup-remove p q d,
)

pub lookup-insert_ne :
    (p q : String) (x : File) (d : Disk) → p ≢ q → lookup q (insert p x d) ≡ lookup q d
lookup-insert_ne p q x d h = ground (arith, lookup-insert p q x d, string_Eq.beq_iff p q)

pub lookup-insert_eq : (p : String) (x : File) (d : Disk) → lookup p (insert p x d) ≡ some x
lookup-insert_eq p x d = ground (arith, lookup-insert p p x d, string_Eq.beq_iff p p)

module _ (h : Host) where
  -- a write leaves the other files
  pub write_file_mode-other :
      (path q : String) (bytes : List ℕ) (mode : ℕ) (d : Disk)
      → path ≢ q
      → lookup q (write_file_mode h path bytes mode d).1 ≡ lookup q d
  unfolding write_file_mode
  write_file_mode-other path q bytes mode d ne = elim (Option-cases (h.short_write path)) [
    | inl e ↦
        ground
          (arith, lookup-insert_ne path q (record (opened h path mode d) { bytes = bytes }) d ne)
    | inr (part, e) ↦
        ground
          (arith, lookup-insert_ne path q (record (opened h path mode d) { bytes = part }) d ne)
  ]

  pub write_file_mode-written :
      (path : String) (bytes : List ℕ) (mode : ℕ) (d : Disk)
      → (write_file_mode h path bytes mode d).0 ≡ ok tt
      → lookup path (write_file_mode h path bytes mode d).1
        ≡ some (record (opened h path mode d) { bytes = bytes })
  unfolding write_file_mode
  write_file_mode-written path bytes mode d done = elim (Option-cases (h.short_write path)) [
    | inl e ↦
        ground (arith, lookup-insert_eq path (record (opened h path mode d) { bytes = bytes }) d)
    | inr (part, e) ↦ ground arith
  ]

  chown-other :
      (path q : String) (uid gid : ℕ) (d : Disk)
      → path ≢ q
      → lookup q (chown h path uid gid d).1 ≡ lookup q d
  unfolding chown
  chown-other path q uid gid d ne = elim (Option-cases (lookup path d)) [
    | inl e ↦ ground arith
    | inr (file, e) ↦
        ground (arith, lookup-insert_ne path q (record file { uid = uid; gid = gid }) d ne)
  ]

  chown-owned :
      (path : String) (uid gid : ℕ) (d : Disk) {file : File}
      → lookup path d ≡ some file
      → (chown h path uid gid d).0 ≡ ok tt
      → lookup path (chown h path uid gid d).1 ≡ some (record file { uid = uid; gid = gid })
  unfolding chown
  chown-owned path uid gid d {file} e done =
      ground (arith, lookup-insert_eq path (record file { uid = uid; gid = gid }) d)

  own_as_parent-other :
      (tmp q : String) (parent : Option String) (d : Disk)
      → tmp ≢ q
      → lookup q (own_as_parent h tmp parent d).1 ≡ lookup q d
  unfolding own_as_parent
  own_as_parent-other tmp q none d ne = refl
  own_as_parent-other tmp q (some dir) d ne = elim (Option-cases (lookup tmp d)) [
    | inl e ↦ ground arith
    | inr (file, e) ↦ elim (Option-cases (h.dir_gid dir)) [
      | inl e' ↦ ground arith
      | inr (gid, e') ↦ ground (arith, chown-other tmp q file.uid gid d ne)
    ]
  ]

  pub preserve-other :
      (tmp target q : String) (d : Disk)
      → tmp ≢ q
      → lookup q (preserve_ownership_before_rename h tmp target d).1 ≡ lookup q d
  unfolding preserve_ownership_before_rename
  preserve-other tmp target q d ne = elim (Option-cases (lookup target d)) [
    | inr (meta, e) ↦ ground (arith, chown-other tmp q meta.uid meta.gid d ne)
    | inl e ↦ ground (arith, own_as_parent-other tmp q (h.parent target) d ne)
  ]

  pub rename-other :
      (source target q : String) (d : Disk)
      → source ≢ q
      → target ≢ q
      → lookup q (rename h source target d).1 ≡ lookup q d
  unfolding rename
  rename-other source target q d ne1 ne2 = elim (Option-cases (lookup source d)) [
    | inl e ↦ ground arith
    | inr (file, e) ↦ ground (
      arith,
      lookup-insert_ne target q file (remove source d) ne2,
      lookup-remove source q d,
      string_Eq.beq_iff source q,
    )
  ]

  pub rename_failed :
      (source target : String) (d : Disk) {x : CompatError}
      → (rename h source target d).0 ≡ err x
      → (rename h source target d).1 ≡ d
  unfolding rename
  rename_failed source target d failed = ground arith

  pub rename-moved :
      (source target : String) (d : Disk) {file : File}
      → lookup source d ≡ some file
      → (rename h source target d).0 ≡ ok tt
      → lookup target (rename h source target d).1 ≡ some file
  unfolding rename
  rename-moved source target d {file} e done =
      ground (arith, lookup-insert_eq target file (remove source d))

  pub preserve-owned :
      (tmp target : String) (d : Disk) {file old : File}
      → lookup tmp d ≡ some file
      → lookup target d ≡ some old
      → (preserve_ownership_before_rename h tmp target d).0 ≡ ok tt
      → lookup tmp (preserve_ownership_before_rename h tmp target d).1
        ≡ some (record file { uid = old.uid; gid = old.gid })
  unfolding preserve_ownership_before_rename
  preserve-owned tmp target d {file} {old} e e' done =
      ground (arith, chown-owned tmp old.uid old.gid d e)

  own_as_parent-kept :
      (tmp : String) (parent : Option String) (d : Disk) {file : File}
      → lookup tmp d ≡ some file
      → (own_as_parent h tmp parent d).0 ≡ ok tt
      → (g : ℕ) × (lookup tmp (own_as_parent h tmp parent d).1 ≡ some (record file { gid = g }))
  unfolding own_as_parent
  own_as_parent-kept tmp none d {file} e done = (file.gid, e)
  own_as_parent-kept tmp (some dir) d {file} e done = elim (Option-cases (h.dir_gid dir)) [
    | inl e' ↦ absurd (ground arith)
    | inr (gid, e') ↦ (gid, ground (arith, chown-owned tmp file.uid gid d e))
  ]

  pub preserve-kept :
      (tmp target : String) (d : Disk) {file : File}
      → lookup tmp d ≡ some file
      → lookup target d ≡ none
      → (preserve_ownership_before_rename h tmp target d).0 ≡ ok tt
      → (g : ℕ) × (lookup tmp (preserve_ownership_before_rename h tmp target d).1
          ≡ some (record file { gid = g }))
  unfolding preserve_ownership_before_rename
  preserve-kept tmp target d {file} e e' done =
      let (g, kept) = own_as_parent-kept tmp (h.parent target) d e (ground arith) in
      (g, ground arith)

  pub opened-fresh :
      (path : String) (mode : ℕ) (d : Disk)
      → lookup path d ≡ none
      → (opened h path mode d).mode ≡ h.masked mode
  unfolding opened
  opened-fresh path mode d e = ground arith
