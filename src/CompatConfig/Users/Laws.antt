-- ===== src/CompatConfig/Users/Laws.antt =====
-- Saving and loading the users (crates/compat-config/src/store.rs).
use vpn.Prelude.{
  ℕ, ◌≡◌, ◌≢◌, inl, inr, sym, ap, ◌∙◌, String, string_Eq, true, List, some, ok, err, lookup, arith,
  Result-cases, Option-cases,
}
use vpn.CompatConfig.Model.{CompatError, CompatUser, UsersFile, UsersJson, UsersJsonLaws}
use vpn.CompatConfig.Disk.{File, Disk, Host, read, replace}
use vpn.CompatConfig.Disk.Replaced.{IsReplaced, replace_done, replace_failed}
use vpn.CompatConfig.Users.{
  users_schema_version, current, parse_users_bytes, schema_of, detect_users_schema, load_users,
  prepare_dir, save_users_atomic,
}

abbrev pub envelope : List CompatUser → UsersFile
envelope users = record { schema_version = users_schema_version; users = users }

module _ (json : UsersJson) (laws : UsersJsonLaws json) where
  pub parse-envelope :
      (users : List CompatUser) (bytes : List ℕ)
      → json.to_vec_pretty (envelope users) ≡ some bytes
      → (parse_users_bytes json bytes ≡ ok users) × (schema_of json bytes ≡ current)
  unfolding parse_users_bytes schema_of
  parse-envelope users bytes e =
      let parsed = laws.from_slice-to_vec (envelope users) bytes e in (ground arith, ground arith)

module _ (h : Host) (json : UsersJson) where
  pub load-there :
      (path : String) (d : Disk) (file : File)
      → lookup path d ≡ some file
      → h.read_ok 0 ≡ true
      → (load_users h json path d ≡ parse_users_bytes json file.bytes)
        × (detect_users_schema h json path d ≡ schema_of json file.bytes)
  unfolding load_users detect_users_schema read
  load-there path d file e readable = (ground arith, ground arith)

  save-steps :
      (path : String) (users : List CompatUser) (d : Disk)
      → (save_users_atomic h json path users d).0 ≡ ok tt
      → (bytes : List ℕ) × (json.to_vec_pretty (envelope users) ≡ some bytes)
        × (save_users_atomic h json path users d ≡ replace h path bytes 416 d)
  unfolding save_users_atomic
  save-steps path users d done = elim (Option-cases (json.to_vec_pretty (envelope users))) [
    | inl e ↦ absurd (ground arith)
    | inr (bytes, e) ↦ (bytes, e, ground arith)
  ]

  -- A save that fails leaves the users' file exactly as it was.
  pub save_failed :
      (path : String) (users : List CompatUser) (d : Disk) (x : CompatError)
      → h.tmp_of path ≢ path
      → (save_users_atomic h json path users d).0 ≡ err x
      → lookup path (save_users_atomic h json path users d).1 ≡ lookup path d
  unfolding save_users_atomic
  save_failed path users d x ne failed = elim (Result-cases (prepare_dir h json path)) [
    | inr (y, e) ↦ ground arith
    | inl (_, e) ↦ elim (Option-cases (json.to_vec_pretty (envelope users))) [
      | inl e' ↦ ground arith
      | inr (bytes, e') ↦ ground (arith, replace_failed h path bytes 416 d x ne)
    ]
  ]

module _ (h : Host) (json : UsersJson) (laws : UsersJsonLaws json) where
  -- After a save that is done, the file can be loaded, and gives the users that were saved, in the
  -- current schema; if there was a file before, its owner and group are kept, and if there was no
  -- stale temporary file, the new one has mode 0640 less the process's mask.
  pub load-save_users :
      (path : String) (users : List CompatUser) (d : Disk)
      → h.tmp_of path ≢ path
      → h.read_ok 0 ≡ true
      → (save_users_atomic h json path users d).0 ≡ ok tt
      → let after = (save_users_atomic h json path users d).1 in
        (load_users h json path after ≡ ok users)
        × (detect_users_schema h json path after ≡ current)
        × ((bytes : List ℕ) × IsReplaced h path bytes 416 d after)
  load-save_users path users d ne readable done =
      let (bytes, e, same) = save-steps h json path users d done in
      let replaced = replace_done h path bytes 416 d ne (ap (λ r. r.0) (sym same) ∙ done) in
      let after = (replace h path bytes 416 d).1 in
      let (loaded, detected) = load-there h json path after replaced.file replaced.there readable in
      let (parsed, schema) = parse-envelope json laws users bytes e in
      let at_file = replaced.written in
      rw same (
        loaded ∙ ap (parse_users_bytes json) at_file ∙ parsed,
        detected ∙ ap (schema_of json) at_file ∙ schema,
        (bytes, replaced),
      )
