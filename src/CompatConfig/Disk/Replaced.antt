-- ===== src/CompatConfig/Disk/Replaced.antt =====
-- The replacement of a file by way of a temporary one
-- (crates/compat-config/src/ownership.rs, migrate.rs and store.rs).
use vpn.Prelude.{
  ℕ, ◌≡◌, ◌≢◌, inl, inr, refl, ◌∙◌, String, string_Eq, List, none, some, ok, err, lookup, arith,
  Result-cases, Option-cases,
}
use vpn.CompatConfig.Model.{CompatError}
use vpn.CompatConfig.Disk.{
  File, Disk, Host, opened, write_file_mode, preserve_ownership_before_rename, rename, replace,
}
use vpn.CompatConfig.Disk.Atomic.{
  write_file_mode-other, write_file_mode-written, preserve-other, rename-other, rename_failed,
  rename-moved, preserve-owned, preserve-kept, opened-fresh,
}

module _ (h : Host) where
  pub replace-other :
      (path q : String) (bytes : List ℕ) (mode : ℕ) (d : Disk)
      → h.tmp_of path ≢ q
      → path ≢ q
      → lookup q (replace h path bytes mode d).1 ≡ lookup q d
  unfolding replace
  replace-other path q bytes mode d ne1 ne2 =
      let tmp = h.tmp_of path in
      let w = write_file_mode h tmp bytes mode d in
      let o = preserve_ownership_before_rename h tmp path w.1 in
      ground (
        arith,
        write_file_mode-other h tmp q bytes mode d ne1,
        preserve-other h tmp path q w.1 ne1,
        rename-other h tmp path q o.1 ne1 ne2,
      )

  pub replace_failed :
      (path : String) (bytes : List ℕ) (mode : ℕ) (d : Disk) (x : CompatError)
      → h.tmp_of path ≢ path
      → (replace h path bytes mode d).0 ≡ err x
      → lookup path (replace h path bytes mode d).1 ≡ lookup path d
  unfolding replace
  replace_failed path bytes mode d x ne failed =
      let tmp = h.tmp_of path in
      let w = write_file_mode h tmp bytes mode d in
      let o = preserve_ownership_before_rename h tmp path w.1 in
      let after_write = write_file_mode-other h tmp path bytes mode d ne in
      let after_owner = preserve-other h tmp path path w.1 ne in
      elim (Result-cases w.0) [
        | inr (y, e) ↦ ground (arith, after_write)
        | inl (_, e) ↦ elim (Result-cases o.0) [
          | inr (y, e') ↦ ground (arith, after_write, after_owner)
          | inl (_, e') ↦ ground (arith, after_write, after_owner, rename_failed h tmp path o.1)
        ]
      ]

  -- What a replacement that is done leaves at its path.
  pub record IsReplaced (path : String) (bytes : List ℕ) (mode : ℕ) (before after : Disk)
      : Type 0 where
    pub file : File
    pub there : lookup path after ≡ some file
    pub written : file.bytes ≡ bytes
    pub same_owner :
        (old : File) → lookup path before ≡ some old → (file.uid ≡ old.uid) × (file.gid ≡ old.gid)
    pub fresh_mode : lookup (h.tmp_of path) before ≡ none → file.mode ≡ h.masked mode

  replace_steps :
      (path : String) (bytes : List ℕ) (mode : ℕ) (d : Disk)
      → (replace h path bytes mode d).0 ≡ ok tt
      → let tmp = h.tmp_of path in
        let w = write_file_mode h tmp bytes mode d in
        let o = preserve_ownership_before_rename h tmp path w.1 in
        (w.0 ≡ ok tt)
        × (o.0 ≡ ok tt)
        × ((rename h tmp path o.1).0 ≡ ok tt)
        × ((replace h path bytes mode d).1 ≡ (rename h tmp path o.1).1)
  unfolding replace
  replace_steps path bytes mode d done = (ground arith, ground arith, ground arith, ground arith)

  pub replace_done :
      (path : String) (bytes : List ℕ) (mode : ℕ) (d : Disk)
      → h.tmp_of path ≢ path
      → (replace h path bytes mode d).0 ≡ ok tt
      → IsReplaced path bytes mode d (replace h path bytes mode d).1
  replace_done path bytes mode d ne done =
      let tmp = h.tmp_of path in
      let w = write_file_mode h tmp bytes mode d in
      let o = preserve_ownership_before_rename h tmp path w.1 in
      let (wrote, owned, renamed, after) = replace_steps path bytes mode d done in
      let written = write_file_mode-written h tmp bytes mode d wrote in
      let same_target = write_file_mode-other h tmp path bytes mode d ne in
      elim (Option-cases (lookup path d)) [
        | inr (old, e) ↦
            let kept = preserve-owned h tmp path w.1 written (same_target ∙ e) owned in
            record {
              file = record (opened h tmp mode d) { bytes = bytes; uid = old.uid; gid = old.gid };
              there = rw after (rename-moved h tmp path o.1 kept renamed);
              written = refl;
              same_owner = λ old' e'. (cc, cc);
              fresh_mode = λ e'. opened-fresh h tmp mode d e';
            }
        | inl e ↦
            let (g, kept) = preserve-kept h tmp path w.1 written (same_target ∙ e) owned in
            record {
              file = record (opened h tmp mode d) { bytes = bytes; gid = g };
              there = rw after (rename-moved h tmp path o.1 kept renamed);
              written = refl;
              same_owner = λ old' e'. absurd (cc);
              fresh_mode = λ e'. opened-fresh h tmp mode d e';
            }
      ]
