-- ===== src/CompatConfig/Users/Migration.antt =====
-- The migration of the users' file (crates/compat-config/src/store.rs and migrate.rs).
use vpn.Prelude.{
  ℕ, ◌≡◌, inl, inr, refl, sym, ap, ◌∙◌, String, string_Eq, true, List, some, ok, err, ◌>>=◌, lookup,
  arith, Result-cases, Option-cases, ok_or, bind-ok, ok_or-ok,
}
use vpn.CompatConfig.Model.{CompatError, parse, CompatUser, UsersJson, UsersJsonLaws}
use vpn.CompatConfig.Disk.{
  File, Disk, Host, opened, read, replace, atomic_write, backup_before_mutate,
}
use vpn.CompatConfig.Disk.Backup.{
  AreApart, backup_done, backup-other, atomic_write_failed, atomic_write_done,
}
use vpn.CompatConfig.Disk.Replaced.{replace_done, replace-other}
use vpn.CompatConfig.Users.Laws.{envelope, parse-envelope, load-there}
use vpn.CompatConfig.Users.{
  UsersSchemaState, missing, legacy, current, future, corrupted, already_current, migrated,
  parse_users_bytes, schema_of, detect_users_schema, load_users, migrated_bytes, migrate_legacy,
  migrate_users,
}

module _ (json : UsersJson) where
  migrated_bytes-ok :
      (users : List CompatUser) {bytes : List ℕ}
      → migrated_bytes json users ≡ ok bytes
      → json.to_vec_pretty (envelope users) ≡ some bytes
  unfolding migrated_bytes
  migrated_bytes-ok users {bytes} h =
      let (b, written, rest) = bind-ok (ok_or (json.to_vec_pretty (envelope users)) parse) _ h in
      let (u, parsed, checked) = bind-ok (ok_or (json.file_from_slice b) parse) _ rest in
      ok_or-ok (json.to_vec_pretty (envelope users)) parse written ∙ ap some (ground arith)

module _ (h : Host) (json : UsersJson) where
  migrate_legacy_failed :
      (path : String) (d : Disk) (x : CompatError)
      → AreApart h path
      → (migrate_legacy h json path d).0 ≡ err x
      → lookup path (migrate_legacy h json path d).1 ≡ lookup path d
  unfolding migrate_legacy
  migrate_legacy_failed path d x apart failed =
      let prepared = read h 1 path d >>= λ bytes.
      ok_or (json.list_from_slice bytes) parse >>= migrated_bytes json in
      let kept = backup-other h path path d apart.backup in
      elim (Result-cases prepared) [
        | inr (y, e) ↦ ground arith
        | inl (bytes, e) ↦ elim (Result-cases (backup_before_mutate h path d).0) [
          | inr (y, e') ↦ ground (arith, kept)
          | inl (b, e') ↦ ground (
            arith,
            kept,
            atomic_write_failed h path bytes 416 (backup_before_mutate h path d).1 x apart.tmp,
          )
        ]
      ]

  -- A migration that fails leaves the users' file exactly as it was.
  pub migrate_users_failed :
      (path : String) (d : Disk) (x : CompatError)
      → AreApart h path
      → (migrate_users h json path d).0 ≡ err x
      → lookup path (migrate_users h json path d).1 ≡ lookup path d
  unfolding migrate_users
  migrate_users_failed path d x apart failed = go (detect_users_schema h json path d) refl
    where
      go :
          (s : UsersSchemaState)
          → detect_users_schema h json path d ≡ s
          → lookup path (migrate_users h json path d).1 ≡ lookup path d
      go legacy e = ground (arith, migrate_legacy_failed path d x apart)
      go missing e = ground arith
      go current e = ground arith
      go (future v) e = ground arith
      go corrupted e = ground arith

  legacy-parsed :
      (path : String) (d : Disk)
      → h.read_ok 0 ≡ true
      → detect_users_schema h json path d ≡ legacy
      → (file : File) × (users : List CompatUser) × (lookup path d ≡ some file)
        × (json.list_from_slice file.bytes ≡ some users)
        × (load_users h json path d ≡ ok users)
  unfolding detect_users_schema schema_of load_users parse_users_bytes read
  legacy-parsed path d readable e = elim (Option-cases (lookup path d)) [
    | inl gone ↦ absurd (ground arith)
    | inr (file, there) ↦ elim (Option-cases (json.list_from_slice file.bytes)) [
      | inl bad ↦ absurd (ground arith)
      | inr (users, parsed) ↦ (file, users, there, parsed, ground arith)
    ]
  ]

  migrate_legacy_steps :
      (path b : String) (d : Disk) (file : File) (users : List CompatUser)
      → ((n : ℕ) → h.read_ok n ≡ true)
      → lookup path d ≡ some file
      → json.list_from_slice file.bytes ≡ some users
      → (migrate_legacy h json path d).0 ≡ ok (migrated b)
      → let d1 = (backup_before_mutate h path d).1 in
        (bytes : List ℕ) × (migrated_bytes json users ≡ ok bytes)
        × ((backup_before_mutate h path d).0 ≡ ok b)
        × ((atomic_write h path bytes 416 d1).0 ≡ ok tt)
        × ((migrate_legacy h json path d).1 ≡ (atomic_write h path bytes 416 d1).1)
  unfolding migrate_legacy read
  migrate_legacy_steps path b d file users readable there parsed done =
      elim (Result-cases (migrated_bytes json users)) [
        | inr (y, e) ↦ absurd (ground (arith, readable 1))
        | inl (bytes, e) ↦ (
          bytes,
          e,
          ground (arith, readable 1),
          ground (arith, readable 1),
          ground (arith, readable 1),
        )
      ]

module _ (h : Host) (json : UsersJson) (path : String) (d : Disk) where
  migrate-legacy :
      detect_users_schema h json path d ≡ legacy
      → migrate_users h json path d ≡ migrate_legacy h json path d
  unfolding migrate_users
  migrate-legacy e = rw (migrate_users, e) refl

  migrate-current :
      detect_users_schema h json path d ≡ current
      → migrate_users h json path d ≡ (ok already_current, d)
  unfolding migrate_users
  migrate-current e = rw (migrate_users, e) refl

module _ (h : Host) (json : UsersJson) (laws : UsersJsonLaws json) where
  -- What a migration that is done has kept and changed.
  pub record IsMigrated (path b : String) (before after : Disk) : Type 0 where
    pub original : File
    pub was_there : lookup path before ≡ some original
    pub same_users : load_users h json path after ≡ load_users h json path before
    pub now_current : detect_users_schema h json path after ≡ current
    pub backup_named : b ≡ h.backup_of path
    pub backup : File
    pub backup_there : lookup b after ≡ some backup
    pub backup_same : backup.bytes ≡ original.bytes
    pub same_owner :
        (file : File)
        → lookup path after ≡ some file
        → (file.uid ≡ original.uid) × (file.gid ≡ original.gid)

  migrate_legacy_done :
      (path b : String) (d : Disk)
      → AreApart h path
      → ((n : ℕ) → h.read_ok n ≡ true)
      → detect_users_schema h json path d ≡ legacy
      → (migrate_legacy h json path d).0 ≡ ok (migrated b)
      → IsMigrated path b d (migrate_legacy h json path d).1
  migrate_legacy_done path b d apart readable is_legacy done =
      let (file, users, there, parsed, loads) =
        legacy-parsed h json path d (readable 0) is_legacy in
      let (bytes, made, backed_up, wrote, after) =
        migrate_legacy_steps h json path b d file users readable there parsed done in
      let (file', there', named, saved) = backup_done h path b d backed_up in
      let d1 = (backup_before_mutate h path d).1 in
      let same_file : file' ≡ file = cc in
      let kept = backup-other h path path d apart.backup in
      let replacing = atomic_write_done h path bytes 416 d1 wrote in
      let replaced =
        replace_done h path bytes 416 d1 apart.tmp (ap (λ r. r.0) (sym replacing) ∙ wrote) in
      let at_end : (migrate_legacy h json path d).1 ≡ (replace h path bytes 416 d1).1 =
        after ∙ ap (λ r. r.1) replacing in
      let (loaded, detected) =
        load-there h json path (replace h path bytes 416 d1).1 replaced.file replaced.there
          (readable 0) in
      let (reparsed, schema) =
        parse-envelope json laws users bytes (migrated_bytes-ok json users made) in
      let untouched =
        replace-other h path b bytes 416 d1 (λ q. apart.siblings (q ∙ named))
          (λ q. apart.backup (sym (q ∙ named))) in
      record {
        original = file;
        was_there = there;
        same_users =
            rw at_end
              (loaded ∙ ap (parse_users_bytes json) replaced.written ∙ reparsed ∙ sym loads);
        now_current = rw at_end (detected ∙ ap (schema_of json) replaced.written ∙ schema);
        backup_named = named;
        backup = record (opened h b 384 d) { bytes = file'.bytes };
        backup_there = rw at_end (untouched ∙ saved);
        backup_same = ap (λ x. x.bytes) same_file;
        same_owner = λ new e.
            let is_new : replaced.file ≡ new = cc in
            let (u, g) = replaced.same_owner file (kept ∙ there) in
            (ap (λ x. x.uid) (sym is_new) ∙ u, ap (λ x. x.gid) (sym is_new) ∙ g);
      }

  -- A migration that is done loads as the same users as before, in the current schema, with the same
  -- owner and group, and its backup holds the bytes that the file had.
  pub migrate_users_done :
      (path b : String) (d : Disk)
      → AreApart h path
      → ((n : ℕ) → h.read_ok n ≡ true)
      → (migrate_users h json path d).0 ≡ ok (migrated b)
      → IsMigrated path b d (migrate_users h json path d).1
  unfolding migrate_users
  migrate_users_done path b d apart readable done = go (detect_users_schema h json path d) refl
    where
      go :
          (s : UsersSchemaState)
          → detect_users_schema h json path d ≡ s
          → IsMigrated path b d (migrate_users h json path d).1
      go legacy e =
          let q = migrate-legacy h json path d e in
          rw q (migrate_legacy_done path b d apart readable e (ap (λ r. r.0) (sym q) ∙ done))
      go missing e = absurd (ground arith)
      go current e = absurd (ground arith)
      go (future v) e = absurd (ground arith)
      go corrupted e = absurd (ground arith)

  -- A migration that is done has nothing left to do when it is run again.
  pub migrate_users-idempotent :
      (path b : String) (d : Disk)
      → AreApart h path
      → ((n : ℕ) → h.read_ok n ≡ true)
      → (migrate_users h json path d).0 ≡ ok (migrated b)
      → let after = (migrate_users h json path d).1 in
        migrate_users h json path after ≡ (ok already_current, after)
  migrate_users-idempotent path b d apart readable done =
      let after = (migrate_users h json path d).1 in
      migrate-current h json path after
        (migrate_users_done path b d apart readable done).now_current
