-- ===== src/Admin/Archive/Laws.antt =====
-- What a backup archive can put into the staging directory (apps/admin/src/main.rs).
use vpn.Prelude.{
  ℕ, ◌+◌, ◌≤◌, ◌≡◌, refl, inl, inr, string_Eq, list_Eq, true, false, List, [], ◌∷◌, Option, none,
  some, ok, length, arith, sym, ap, subst, ◌∙◌, Result-cases, Option-cases, Bool-cases,
}
use vpn.Admin.Archive.{
  Entry, EntryType, RelPath, Staged, max_entries, max_entry_bytes, max_total_bytes,
  is_allowed_backup_path, contains_path, is_plain, check_entry, stage, extract_entry,
  extract_entries, extract_validated_backup, empty_staging, staged, unpack, entry_path, is_nil,
}

-- An allowed path, a plain file or directory, and no more than 32 MiB.
abbrev IsExpected : RelPath × EntryType × ℕ → Type 0
IsExpected (path, kind, size) =
    (is_allowed_backup_path path ≡ true) × (is_plain kind ≡ true) × (size ≤ max_entry_bytes)

abbrev pub AllExpected : List (RelPath × EntryType × ℕ) → Type 0
AllExpected [] = Unit {0}
AllExpected (e ∷ es) = IsExpected e × AllExpected es

abbrev pub paths : List (RelPath × EntryType × ℕ) → List RelPath
paths [] = []
paths ((path, _, _) ∷ es) = path ∷ paths es

abbrev pub total : List (RelPath × EntryType × ℕ) → ℕ
total [] = 0
total ((_, _, size) ∷ es) = total es + size

-- no path twice
abbrev pub AreDistinct : List RelPath → Type 0
AreDistinct [] = Unit {0}
AreDistinct (p ∷ ps) = (contains_path p ps ≡ false) × AreDistinct ps

pub record IsSafe (s : Staged) : Type 0 where
  pub expected : AllExpected s.written
  pub distinct : AreDistinct (paths s.written)
  pub bounded : total s.written ≤ max_total_bytes
  pub few : length s.written ≤ s.count
  pub counted : s.count ≤ max_entries
  pub seen_written : s.seen ≡ paths s.written
  pub same_total : s.total_bytes ≡ total s.written

check_entry-ok :
    (path : RelPath) (entry : Entry) (s : Staged)
    → check_entry path entry s ≡ ok tt
    → (contains_path path s.seen ≡ false)
      × (is_allowed_backup_path path ≡ true)
      × (is_plain entry.entry_type ≡ true)
      × (entry.size ≤ max_entry_bytes)
      × (s.total_bytes + entry.size ≤ max_total_bytes)
unfolding check_entry
check_entry-ok path entry s h =
    (ground arith, ground arith, ground arith, ground arith, ground arith)

staged-IsSafe :
    (path : RelPath) (entry : Entry) (s : Staged)
    → IsSafe s
    → length s.written + 1 ≤ s.count
    → check_entry path entry s ≡ ok tt
    → IsSafe (staged path entry s)
staged-IsSafe path entry s v few h =
    let (new, allowed, plain, small, sum) = check_entry-ok path entry s h in
    record {
      expected = ((allowed, plain, small), v.expected);
      distinct = (ap (contains_path path) (sym v.seen_written) ∙ new, v.distinct);
      bounded = ground arith;
      few = omega arith;
      counted = v.counted;
      seen_written = ap (λ r. path ∷ r) v.seen_written;
      same_total = ground arith;
    }

stage-IsSafe :
    (path : RelPath) (entry : Entry) (s : Staged)
    → IsSafe s
    → length s.written + 1 ≤ s.count
    → IsSafe (stage path entry s).1
unfolding stage unpack
stage-IsSafe path entry s v few = elim (Result-cases (check_entry path entry s)) [
  | inr (x, e) ↦ let same : (stage path entry s).1 ≡ s = ground arith in subst IsSafe (sym same) v
  | inl (_, e) ↦
      let after = staged-IsSafe path entry s v few e in
      elim (Option-cases entry.unpack_in) [
        | inl e' ↦
            let same : (stage path entry s).1 ≡ staged path entry s = ground arith in
            subst IsSafe (sym same) after
        | inr (inside, e') ↦ elim (Bool-cases inside) [
          | inl e'' ↦
              let same : (stage path entry s).1 ≡ staged path entry s = ground arith in
              subst IsSafe (sym same) after
          | inr e'' ↦
              let same : (stage path entry s).1 ≡ s = ground arith in subst IsSafe (sym same) v
        ]
      ]
]

entry_path-few :
    (count : ℕ) (entry : Entry) (path : RelPath)
    → entry_path count entry ≡ ok path
    → count ≤ max_entries
unfolding entry_path
entry_path-few count entry path h = ground arith

-- every round of the loop keeps the staging directory safe, also one that ends it
extract_entry-IsSafe :
    (next : Option Entry) (s : Staged) → IsSafe s → IsSafe (extract_entry next s).1
unfolding extract_entry
extract_entry-IsSafe none s v = v
extract_entry-IsSafe (some entry) s v =
    let counted = record s { count = s.count + 1 } in
    elim (Result-cases (entry_path (s.count + 1) entry)) [
      | inr (x, e) ↦
          let same : (extract_entry (some entry) s).1 ≡ s = ground arith in
          subst IsSafe (sym same) v
      | inl (path, e) ↦
          let v' : IsSafe counted = record {
            expected = v.expected;
            distinct = v.distinct;
            bounded = v.bounded;
            few = omega (arith, v.few);
            counted = entry_path-few (s.count + 1) entry path e;
            seen_written = v.seen_written;
            same_total = v.same_total;
          } in
          elim (Bool-cases (is_nil path)) [
            | inl root ↦
                let same : (extract_entry (some entry) s).1 ≡ counted = ground arith in
                subst IsSafe (sym same) v'
            | inr below ↦
                let same : (extract_entry (some entry) s).1 ≡ (stage path entry counted).1 =
                  ground arith in
                subst IsSafe (sym same) (stage-IsSafe path entry counted v' (omega (arith, v.few)))
          ]
    ]

extract_entries-IsSafe :
    (entries : List (Option Entry)) (s : Staged) → IsSafe s → IsSafe (extract_entries entries s).1
unfolding extract_entries
extract_entries-IsSafe [] s v = v
extract_entries-IsSafe (next ∷ rest) s v =
    let v' = extract_entry-IsSafe next s v in
    elim (Result-cases (extract_entry next s).0) [
      | inr (x, e) ↦
          let same : (extract_entries (next ∷ rest) s).1 ≡ (extract_entry next s).1 =
            ground arith in
          subst IsSafe (sym same) v'
      | inl (_, e) ↦
          let same : (extract_entries (next ∷ rest) s).1
              ≡ (extract_entries rest (extract_entry next s).1).1 =
            ground arith in
          subst IsSafe (sym same) (extract_entries-IsSafe rest (extract_entry next s).1 v')
    ]

-- Whatever an archive holds, whether it is accepted or not and whether an entry is unpacked whole or in
-- part, what it leaves in the staging directory are files and directories of the manifest, none twice, each of at most 32 MiB, of at
-- most 64 MiB together, and at most 32 of them.
pub extract_validated_backup-IsSafe :
    (entries : List (Option Entry)) → IsSafe (extract_validated_backup entries).1
unfolding extract_validated_backup
extract_validated_backup-IsSafe entries = extract_entries-IsSafe entries empty_staging (record {
  expected = tt;
  distinct = tt;
  bounded = omega arith;
  few = omega arith;
  counted = omega arith;
  seen_written = refl;
  same_total = refl;
})
