-- ===== src/CompatConfig/Deployment/Laws.antt =====
-- The migration of `deployment.toml` (crates/compat-config/src/deployment.rs).
use vpn.Prelude.{
  ℕ, ◌≡◌, inl, inr, refl, sym, ap, ◌∙◌, subst, String, string_Eq, List, Option, none, some, Result,
  ok, err, lookup, arith, Result-cases, Option-cases,
}
use vpn.CompatConfig.Model.{CompatError}
use vpn.CompatConfig.Disk.{File, Disk, Host, opened, atomic_write, backup_before_mutate, replace}
use vpn.CompatConfig.Disk.Replaced.{replace_done, replace-other}
use vpn.CompatConfig.Disk.Backup.{
  AreApart, backup_done, backup-other, atomic_write_failed, atomic_write_done,
}
use vpn.CompatConfig.Deployment.{
  Toml, migrated, patch, apply_patch, finish, migrate_deployment_toml,
}
use vpn.CompatConfig.Deployment.Patched.{IsPatched, patch-some}

module _ (h : Host) (toml : Toml) where
  apply_patch_failed :
      (path : String) (patched : List ℕ) (d : Disk) (x : CompatError)
      → AreApart h path
      → (apply_patch h toml path patched d).0 ≡ err x
      → lookup path (apply_patch h toml path patched d).1 ≡ lookup path d
  unfolding apply_patch
  apply_patch_failed path patched d x apart failed =
      let kept = backup-other h path path d apart.backup in
      elim (Result-cases (backup_before_mutate h path d).0) [
        | inr (y, e') ↦ ground (arith, kept)
        | inl (b, e') ↦ ground (
          arith,
          kept,
          atomic_write_failed h path patched 420 (backup_before_mutate h path d).1 x apart.tmp,
        )
      ]

  finish_failed :
      (path : String) (r : Result CompatError (Option (List ℕ))) (d : Disk) (x : CompatError)
      → AreApart h path
      → (finish h toml path r d).0 ≡ err x
      → lookup path (finish h toml path r d).1 ≡ lookup path d
  unfolding finish
  finish_failed path (err e) d x apart failed = refl
  finish_failed path (ok none) d x apart failed = refl
  finish_failed path (ok (some patched)) d x apart failed =
      apply_patch_failed path patched d x apart failed

  -- A migration of the deployment file that fails leaves the file exactly as it was.
  pub migrate_deployment_toml_failed :
      (path : String) (d : Disk) (x : CompatError)
      → AreApart h path
      → (migrate_deployment_toml h toml path d).0 ≡ err x
      → lookup path (migrate_deployment_toml h toml path d).1 ≡ lookup path d
  unfolding migrate_deployment_toml
  migrate_deployment_toml_failed path d x apart failed = elim (Option-cases (lookup path d)) [
    | inl e ↦ ground arith
    | inr (file, e) ↦ ground (arith, finish_failed path (patch h toml path d) d x apart)
  ]

  -- What a migration that is done has kept and changed.
  pub record IsMigrated (path b : String) (before after : Disk) : Type 0 where
    pub original : File
    pub changed : File
    pub was_there : lookup path before ≡ some original
    pub is_there : lookup path after ≡ some changed
    pub patched : IsPatched toml original.bytes changed.bytes
    pub same_owner : (changed.uid ≡ original.uid) × (changed.gid ≡ original.gid)
    pub backup : File
    pub backup_there : lookup b after ≡ some backup
    pub backup_same : backup.bytes ≡ original.bytes

  apply_patch_steps :
      (path b : String) (p : List ℕ) (d : Disk)
      → (apply_patch h toml path p d).0 ≡ ok (migrated b)
      → let d1 = (backup_before_mutate h path d).1 in
        ((backup_before_mutate h path d).0 ≡ ok b)
        × ((atomic_write h path p 420 d1).0 ≡ ok tt)
        × ((apply_patch h toml path p d).1 ≡ (atomic_write h path p 420 d1).1)
  unfolding apply_patch
  apply_patch_steps path b p d done = (ground arith, ground arith, ground arith)

  finish_steps :
      (path b : String) (r : Result CompatError (Option (List ℕ))) (d : Disk)
      → (finish h toml path r d).0 ≡ ok (migrated b)
      → (p : List ℕ) × (r ≡ ok (some p)) × (finish h toml path r d ≡ apply_patch h toml path p d)
  unfolding finish
  finish_steps path b (err e) d done = absurd (cc)
  finish_steps path b (ok none) d done = absurd (cc)
  finish_steps path b (ok (some p)) d done = (p, refl, refl)

  migrate_steps :
      (path b : String) (d : Disk)
      → (migrate_deployment_toml h toml path d).0 ≡ ok (migrated b)
      → (p : List ℕ) × (patch h toml path d ≡ ok (some p))
        × (migrate_deployment_toml h toml path d ≡ apply_patch h toml path p d)
  unfolding migrate_deployment_toml
  migrate_steps path b d done = elim (Option-cases (lookup path d)) [
    | inl e ↦ absurd (ground arith)
    | inr (file, e) ↦
        let (p, patched, same) = finish_steps path b (patch h toml path d) d (ground arith) in
        (p, patched, ground (arith, same))
  ]

  apply_patch_done :
      (path b : String) (p : List ℕ) (d : Disk) (file : File)
      → AreApart h path
      → lookup path d ≡ some file
      → IsPatched toml file.bytes p
      → (apply_patch h toml path p d).0 ≡ ok (migrated b)
      → IsMigrated path b d (apply_patch h toml path p d).1
  apply_patch_done path b p d file apart there is_patched done =
      let (backed_up, wrote, after) = apply_patch_steps path b p d done in
      let (file', there', named, saved) = backup_done h path b d backed_up in
      let d1 = (backup_before_mutate h path d).1 in
      let same_file : file' ≡ file = cc in
      let kept = backup-other h path path d apart.backup in
      let replacing = atomic_write_done h path p 420 d1 wrote in
      let replaced =
        replace_done h path p 420 d1 apart.tmp (ap (λ r. r.0) (sym replacing) ∙ wrote) in
      let at_end : (apply_patch h toml path p d).1 ≡ (replace h path p 420 d1).1 =
        after ∙ ap (λ r. r.1) replacing in
      let untouched =
        replace-other h path b p 420 d1 (λ q. apart.siblings (q ∙ named))
          (λ q. apart.backup (sym (q ∙ named))) in
      record {
        original = file;
        changed = replaced.file;
        was_there = there;
        is_there = rw at_end replaced.there;
        patched = subst (λ x. IsPatched toml file.bytes x) (sym replaced.written) is_patched;
        same_owner = replaced.same_owner file (kept ∙ there);
        backup = record (opened h b 384 d) { bytes = file'.bytes };
        backup_there = rw at_end (untouched ∙ saved);
        backup_same = ap (λ x. x.bytes) same_file;
      }

  -- A migration of the deployment file that is done has put the version's line before the text, to a
  -- configuration that is valid, of the current version and equal to the one before in every other
  -- setting; it kept the file's owner and group, and its backup holds the bytes that the file had.
  pub migrate_deployment_toml_done :
      (path b : String) (d : Disk)
      → AreApart h path
      → (migrate_deployment_toml h toml path d).0 ≡ ok (migrated b)
      → IsMigrated path b d (migrate_deployment_toml h toml path d).1
  migrate_deployment_toml_done path b d apart done =
      let (p, patched, same) = migrate_steps path b d done in
      let (file, there, is_patched) = patch-some h toml path d patched in
      subst (λ r. IsMigrated path b d r.1) (sym same)
        (apply_patch_done path b p d file apart there is_patched (ap (λ r. r.0) (sym same) ∙ done))
