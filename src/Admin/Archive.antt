-- ===== src/Admin/Archive.antt =====
-- apps/admin/src/main.rs: what a restore takes out of a backup archive.
pub mod Laws
use vpn.Prelude.{
  ℕ, ◌+◌, ◌*◌, ◌^◌, String, string_Eq, ◌==◌, list_Eq, Bool, true, false, not, ◌||◌, ◌&&◌, ltb,
  if◌then◌else◌, List, [], ◌∷◌, ◌++◌, Option, none, some, Result, ok, err, ◌>>=◌, ◌>>◌, fail_if,
  ok_or,
}

-- `std::path::Component`
pub data Component : Type 0 where
  cur_dir parent_dir root_dir prefix : Component
  normal : String → Component

pub data EntryType : Type 0 where
  file directory link symlink fifo character_device block_device other : EntryType

-- A header of the archive: its path if it can be read, its type and size, and what `unpack_in`
-- answers for it: an error, or whether the entry was written.
pub record Entry : Type 0 where
  pub path : Option (List Component)
  pub entry_type : EntryType
  pub size : ℕ
  pub unpack_in : Option Bool

pub data ArchiveError : Type 0 where
  unreadable too_many_entries no_path unsafe_path root_not_directory duplicate : ArchiveError
  unexpected forbidden_type too_large overflow expands_too_far not_extracted escapes : ArchiveError

abbrev pub max_entries : ℕ
max_entries = 32

abbrev pub max_entry_bytes : ℕ
max_entry_bytes = 32 * 1024 * 1024

abbrev pub max_total_bytes : ℕ
max_total_bytes = 64 * 1024 * 1024

-- a path is the list of its parts
abbrev pub RelPath : Type 0
RelPath = List String

unfoldable pub normalized_archive_path : List Component → Option RelPath
normalized_archive_path [] = some []
normalized_archive_path (cur_dir ∷ cs) = normalized_archive_path cs
normalized_archive_path (normal part ∷ cs) = elim (normalized_archive_path cs) [
  | none ↦ none
  | some rest ↦ some (part ∷ rest)
]
normalized_archive_path (parent_dir ∷ cs) = none
normalized_archive_path (root_dir ∷ cs) = none
normalized_archive_path (prefix ∷ cs) = none

abbrev pub backup_manifest : List RelPath
backup_manifest =
    ("users" ∷ "users.json" ∷ [])
    ∷ ("reality" ∷ "private.key" ∷ [])
    ∷ ("reality" ∷ "public.key" ∷ [])
    ∷ ("reality" ∷ "short_id.txt" ∷ [])
    ∷ ("hysteria" ∷ "cert.pem" ∷ [])
    ∷ ("hysteria" ∷ "key.pem" ∷ [])
    ∷ ("reality" ∷ "hysteria_obfs_password.txt" ∷ [])
    ∷ []

-- `Path::parent` of a relative path
abbrev pub parent : RelPath → RelPath
parent [] = []
parent (p ∷ []) = []
parent (p ∷ q ∷ ps) = p ∷ parent (q ∷ ps)

abbrev pub is_nil : RelPath → Bool
is_nil [] = true
is_nil _ = false

unfoldable pub in_manifest : List RelPath → RelPath → Bool
in_manifest [] path = false
in_manifest (rel ∷ rels) path =
    let rest = in_manifest rels path in
    if path == rel
    then true
    else if not (is_nil (parent rel)) && path == parent rel
    then true
    else rest

unfoldable pub is_allowed_backup_path : RelPath → Bool
unfolding in_manifest
is_allowed_backup_path path =
    if path == ("deployment.toml" ∷ []) then true else in_manifest backup_manifest path

-- The variables of the loop, with the entries that are in the staging directory, whole or in part.
pub record Staged : Type 0 where
  pub seen : List RelPath
  pub total_bytes : ℕ
  pub count : ℕ
  pub written : List (RelPath × EntryType × ℕ)

unfoldable pub contains_path : RelPath → List RelPath → Bool
contains_path path [] = false
contains_path path (q ∷ qs) = q == path || contains_path path qs

unfoldable pub is_plain : EntryType → Bool
is_plain file = true
is_plain directory = true
is_plain _ = false

unfoldable pub is_directory : EntryType → Bool
is_directory directory = true
is_directory _ = false

-- the checks of an entry that is not the root
unfoldable pub check_entry : RelPath → Entry → Staged → Result ArchiveError (Unit {0})
unfolding contains_path is_allowed_backup_path is_plain
check_entry path entry s = do
  fail_if (contains_path path s.seen) duplicate
  fail_if (not (is_allowed_backup_path path)) unexpected
  fail_if (not (is_plain entry.entry_type)) forbidden_type
  fail_if (ltb max_entry_bytes entry.size) too_large
  fail_if (not (ltb (s.total_bytes + entry.size) (2 ^ 64))) overflow
  fail_if (ltb max_total_bytes (s.total_bytes + entry.size)) expands_too_far

-- the state with an entry that is in the staging directory, whole or in part
abbrev pub staged : RelPath → Entry → Staged → Staged
staged path entry s = record s {
  seen = path ∷ s.seen;
  total_bytes = s.total_bytes + entry.size;
  written = (path, entry.entry_type, entry.size) ∷ s.written;
}

-- `unpack_in`: an error can leave a part of the entry; one that would escape is skipped. Directories that
-- it makes on the way are not recorded.
unfoldable pub unpack : RelPath → Entry → Staged → Result ArchiveError (Unit {0}) × Staged
unpack path entry s = elim entry.unpack_in [
  | none ↦ (err not_extracted, staged path entry s)
  | some inside ↦ if inside then (ok tt, staged path entry s) else (err escapes, s)
]

unfoldable pub stage : RelPath → Entry → Staged → Result ArchiveError (Unit {0}) × Staged
unfolding check_entry unpack
stage path entry s = elim (check_entry path entry s) [
  | err e ↦ (err e, s)
  | ok _ ↦ unpack path entry s
]

-- the path of the header that is the `count`th
unfoldable pub entry_path : ℕ → Entry → Result ArchiveError RelPath
unfolding normalized_archive_path
entry_path count entry = do
  fail_if (ltb max_entries count) too_many_entries
  raw_path ← ok_or entry.path no_path
  ok_or (normalized_archive_path raw_path) unsafe_path

-- one round of the loop
unfoldable pub extract_entry : Option Entry → Staged → Result ArchiveError (Unit {0}) × Staged
unfolding entry_path is_directory stage
extract_entry none s = (err unreadable, s)
extract_entry (some entry) s = elim (entry_path (s.count + 1) entry) [
  | err e ↦ (err e, s)
  | ok path ↦
      let counted = record s { count = s.count + 1 } in
      if is_nil path
      then (if is_directory entry.entry_type
          then (ok tt, counted)
          else (err root_not_directory, counted))
      else stage path entry counted
]

-- The loop ends at the first entry that is refused. Its variables are gone then, but what was written
-- stays in the staging directory.
unfoldable pub extract_entries :
    List (Option Entry) → Staged → Result ArchiveError (Unit {0}) × Staged
unfolding extract_entry
extract_entries [] s = (ok tt, s)
extract_entries (next ∷ rest) s =
    let (r, s') = extract_entry next s in
    let later = extract_entries rest s' in elim r [ err e ↦ (err e, s') | ok _ ↦ later ]

abbrev pub empty_staging : Staged
empty_staging = record { seen = []; total_bytes = 0; count = 0; written = [] }

unfoldable pub extract_validated_backup :
    List (Option Entry) → Result ArchiveError (Unit {0}) × Staged
unfolding extract_entries
extract_validated_backup entries = extract_entries entries empty_staging
