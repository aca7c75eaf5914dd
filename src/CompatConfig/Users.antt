-- ===== src/CompatConfig/Users.antt =====
-- crates/compat-config/src/store.rs: loading, saving and migrating `users.json`.
pub mod Laws
pub mod Migration
use vpn.Prelude.{
  ℕ, String, string_Eq, Bool, true, false, not, ltb, nat_eq, ◌||◌, if◌then◌else◌, List, [], length,
  Option, none, some, Result, ok, err, ◌>>=◌, map_err, ok_or, lookup,
}
use vpn.CompatConfig.Model.{
  CompatError, io, parse, unsupported_schema, CompatUser, UsersFile, UsersJson,
}
use vpn.CompatConfig.Disk.{
  Disk, Host, and_then, outcome, read, replace, create_parent, atomic_write, backup_before_mutate,
}

abbrev pub users_schema_version : ℕ
users_schema_version = 1

pub data UsersSchemaState : Type 0 where
  missing legacy current : UsersSchemaState
  future : ℕ → UsersSchemaState
  corrupted : UsersSchemaState

pub data UsersMigrationOutcome : Type 0 where
  missing already_current : UsersMigrationOutcome
  migrated : String → UsersMigrationOutcome

module _ (json : UsersJson) where
  -- the envelope first, then the bare list
  unfoldable pub parse_users_bytes : List ℕ → Result CompatError (List CompatUser)
  parse_users_bytes bytes = elim (json.file_from_slice bytes) [
    | some versioned ↦
        if ltb users_schema_version versioned.schema_version
        then err (unsupported_schema versioned.schema_version users_schema_version)
        else ok versioned.users
    | none ↦ ok_or (json.list_from_slice bytes) parse
  ]

  unfoldable pub schema_of : List ℕ → UsersSchemaState
  schema_of bytes = elim (json.file_from_slice bytes) [
    | some versioned ↦
        if ltb users_schema_version versioned.schema_version
        then future versioned.schema_version
        else current
    | none ↦ elim (json.list_from_slice bytes) [ some _ ↦ legacy | none ↦ corrupted ]
  ]

  -- the bytes of a file that was migrated in memory, if they parse back to its shape
  unfoldable pub migrated_bytes : List CompatUser → Result CompatError (List ℕ)
  migrated_bytes users = do
    bytes ←
        ok_or (json.to_vec_pretty (record { schema_version = users_schema_version; users = users }))
          parse
    reparsed ← ok_or (json.file_from_slice bytes) parse
    if not (nat_eq reparsed.schema_version users_schema_version)
          || not (nat_eq (length reparsed.users) (length users))
        then err parse
        else ok bytes

module _ (h : Host) (json : UsersJson) where
  unfoldable pub detect_users_schema : String → Disk → UsersSchemaState
  unfolding schema_of
  detect_users_schema path d = elim (lookup path d) [
    | none ↦ missing
    | some _ ↦ elim (read h 0 path d) [ err e ↦ corrupted | ok bytes ↦ schema_of json bytes ]
  ]

  unfoldable pub load_users : String → Disk → Result CompatError (List CompatUser)
  unfolding parse_users_bytes
  load_users path d = elim (lookup path d) [
    | none ↦ ok []
    | some _ ↦ read h 0 path d >>= parse_users_bytes json
  ]

  -- the parent directory is made, and its mode set
  unfoldable pub prepare_dir : String → Result CompatError (Unit {0})
  prepare_dir path = elim (h.parent path) [
    | none ↦ ok tt
    | some dir ↦ outcome h.create_dir_ok >>= λ _. outcome h.dir_mode_ok
  ]

  unfoldable pub save_users_atomic :
      String → List CompatUser → Disk → Result CompatError (Unit {0}) × Disk
  unfolding prepare_dir
  save_users_atomic path users d =
      and_then (prepare_dir path, d)
        λ d'.
          elim (json.to_vec_pretty
            (record { schema_version = users_schema_version; users = users })) [
              | none ↦ (err parse, d')
              | some bytes ↦ replace h path bytes 416 d'
            ]

  unfoldable pub migrate_legacy : String → Disk → Result CompatError UsersMigrationOutcome × Disk
  unfolding migrated_bytes
  migrate_legacy path d =
      let prepared = read h 1 path d >>= λ bytes.
      ok_or (json.list_from_slice bytes) parse >>= migrated_bytes json in
      elim prepared [
        | err e ↦ (err e, d)
        | ok bytes ↦
            let (backed_up, d1) = backup_before_mutate h path d in
            elim backed_up [
              | err e ↦ (err e, d1)
              | ok backup_path ↦
                  and_then (atomic_write h path bytes 416 d1) λ d2. (ok (migrated backup_path), d2)
            ]
      ]

  unfoldable pub migrate_users : String → Disk → Result CompatError UsersMigrationOutcome × Disk
  unfolding migrate_legacy
  migrate_users path d = elim (detect_users_schema path d) [
    | missing ↦ (ok missing, d)
    | current ↦ (ok already_current, d)
    | future found ↦ (err (unsupported_schema found users_schema_version), d)
    | corrupted ↦ (err parse, d)
    | legacy ↦ migrate_legacy path d
  ]
