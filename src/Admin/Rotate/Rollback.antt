-- ===== src/Admin/Rotate/Rollback.antt =====
-- What is left of a rotation of keys that is rolled back (apps/admin/src/main.rs).
use vpn.Prelude.{
  ◌≡◌, ◌≢◌, inl, inr, sym, ap, ◌∙◌, string_Eq, Bool, true, List, [], ◌∷◌, ok, lookup, arith,
  Result-cases, Bool-cases, subst,
}
use vpn.CompatConfig.Disk.{Disk, Host}
use vpn.Admin.Rotate.{
  KeyFile, Names, backup_for_rotate, backup_all, roll_back_file, roll_back_files,
}
use vpn.Admin.Rotate.Files.{
  All, All-map, All-zip, saved, backed_up, rolled_back, backup_for_rotate-other, backup_all-other,
  roll_back_file-other, roll_back_files-other,
}

-- The names of two files, and of their backups, differ.
pub record AreSeparate (n : Names) (k j : KeyFile) : Type 0 where
  pub paths : k.path ≢ j.path
  pub baks : n.bak k.path ≢ n.bak j.path
  pub bak_path : n.bak k.path ≢ j.path
  pub path_bak : k.path ≢ n.bak j.path

AreSeparate-sym : (n : Names) (k j : KeyFile) → AreSeparate n k j → AreSeparate n j k
AreSeparate-sym n k j s = record {
  paths = λ q. s.paths (sym q);
  baks = λ q. s.baks (sym q);
  bak_path = λ q. s.path_bak (sym q);
  path_bak = λ q. s.bak_path (sym q);
}

-- all the names of a transaction's files differ
abbrev pub AllSeparate : Names → List KeyFile → Type 0
AllSeparate n [] = Unit {0}
AllSeparate n (k ∷ ks) =
    (n.bak k.path ≢ k.path) × All (λ j. AreSeparate n k j) ks × AllSeparate n ks

-- the backups of these files are as they were
abbrev pub AreKept : Names → List KeyFile → Disk → Disk → Type 0
AreKept n ks d d' = All (λ k. lookup (n.bak k.path) d' ≡ lookup (n.bak k.path) d) ks

-- every file is what its backup was made of, or absent if it was
abbrev pub AreRestored : Host → Names → List KeyFile → Disk → Disk → Type 0
AreRestored h n ks before after =
    All (λ k. lookup k.path after ≡ saved h n (lookup k.path before)) ks

-- the files after k are apart from it and from its backup
files_apart :
    (n : Names) (k : KeyFile) (ks : List KeyFile)
    → All (λ j. AreSeparate n k j) ks
    → All (λ j. (n.bak j.path ≢ k.path) × (j.path ≢ k.path)) ks
files_apart n k ks = All-map (λ j s. (λ e. s.path_bak (sym e), λ e. s.paths (sym e))) ks

baks_apart :
    (n : Names) (k : KeyFile) (ks : List KeyFile)
    → All (λ j. AreSeparate n k j) ks
    → All (λ j. n.bak j.path ≢ n.bak k.path) ks
baks_apart n k ks = All-map (λ j s e. s.baks (sym e)) ks

-- no backup has the name of a file
pub baks_off :
    (n : Names) (ks : List KeyFile)
    → AllSeparate n ks
    → All (λ k. All (λ j. n.bak j.path ≢ k.path) ks) ks
baks_off n [] s = tt
baks_off n (k ∷ ks) s = (
  (s.0, All-map (λ j a e. a.path_bak (sym e)) ks s.1),
  All-zip (λ j a off. (a.bak_path, off)) ks s.1 (baks_off n ks s.2),
)

module _ (h r : Host) (n : Names) where
  -- the return of one file leaves the backups of the others
  roll_back_file-AreKept :
      (k : KeyFile) (was : Bool) (ks : List KeyFile) (made after : Disk)
      → All (λ j. AreSeparate n k j) ks
      → AreKept n ks made after
      → AreKept n ks made (roll_back_file r n k.path was after).1
  roll_back_file-AreKept k was ks made after =
      All-zip
        (λ j s kept.
          roll_back_file-other r n k.path (n.bak j.path) was after s.baks s.path_bak ∙ kept)
        ks

  -- the backup of one file leaves the others as they were
  backup_for_rotate-AreRestored :
      (k : KeyFile) (ks : List KeyFile) (before after : Disk)
      → All (λ j. AreSeparate n k j) ks
      → AreRestored h n ks (backup_for_rotate h n k.path before).1 after
      → AreRestored h n ks before after
  backup_for_rotate-AreRestored k ks before after =
      All-zip
        (λ j s back.
          back ∙ ap (saved h n) (backup_for_rotate-other h n k.path j.path before s.bak_path))
        ks

  backup_all-nonempty :
      (k : KeyFile) (ks : List KeyFile) (d : Disk) → (backup_all h n (k ∷ ks) d).0 ≢ ok []
  unfolding backup_all
  backup_all-nonempty k ks d e = elim (Result-cases (backup_for_rotate h n k.path d).0) [
    | inr (x, e') ↦ absurd (ground arith)
    | inl (was, e') ↦ absurd (ground arith)
  ]

  -- the parts of backups that were all made
  backup_all-cons :
      (k : KeyFile) (ks : List KeyFile) (was : Bool) (existed : List Bool) (d : Disk)
      → (backup_all h n (k ∷ ks) d).0 ≡ ok (was ∷ existed)
      → let one = backup_for_rotate h n k.path d in
        let rest = backup_all h n ks one.1 in
        (one.0 ≡ ok was) × (rest.0 ≡ ok existed) × ((backup_all h n (k ∷ ks) d).1 ≡ rest.1)
  unfolding backup_all
  backup_all-cons k ks was existed d backed =
      let b = backup_for_rotate h n k.path d in
      elim (Result-cases b.0) [
        | inr (x, e) ↦ absurd (ground arith)
        | inl (was', e) ↦ elim (Result-cases (backup_all h n ks b.1).0) [
          | inr (x, e') ↦ absurd (ground arith)
          | inl (more, e') ↦ (ground arith, ground arith, ground arith)
        ]
      ]

  -- If the backups of all files were made, and nothing has touched them since, a rollback that
  -- reports success has put every file back: with the bytes and the mode it had, and with its owner if
  -- the backup could be given it; a file that was not there is gone.
  pub roll_back_files-AreRestored :
      (ks : List KeyFile) (existed : List Bool) (before after : Disk)
      → AllSeparate n ks
      → (backup_all h n ks before).0 ≡ ok existed
      → AreKept n ks (backup_all h n ks before).1 after
      → (roll_back_files r n ks existed after).0 ≡ true
      → AreRestored h n ks before (roll_back_files r n ks existed after).1
  unfolding backup_all roll_back_files
  roll_back_files-AreRestored [] existed before after apart backed kept done = tt
  roll_back_files-AreRestored (k ∷ ks) [] before after apart backed kept done =
      absurd (backup_all-nonempty k ks before backed)
  roll_back_files-AreRestored (k ∷ ks) (was ∷ existed) before after apart backed kept done =
      let (one, rest, at_end) = backup_all-cons k ks was existed before backed in
      let made = (backup_for_rotate h n k.path before).1 in
      let undone = roll_back_file r n k.path was after in
      let (at_bak, there, gone) = backed_up h n k.path before was one in
      let kept' = subst (λ d. AreKept n (k ∷ ks) d after) at_end kept in
      let holds =
        kept'.0
        ∙ backup_all-other h n ks (n.bak k.path) made (baks_apart n k ks apart.1)
        ∙ at_bak in
      (
        roll_back_files-other r n ks existed k.path undone.1 (files_apart n k ks apart.1)
            ∙ rolled_back h n r k.path was after (lookup k.path before) holds there gone
                (ground (arith, Bool-cases undone.0)),
        backup_for_rotate-AreRestored k ks before (roll_back_files r n ks existed undone.1).1
            apart.1
            (roll_back_files-AreRestored ks existed made undone.1 apart.2 rest
              (roll_back_file-AreKept k was ks (backup_all h n ks made).1 after apart.1 kept'.1)
              (ground (arith, Bool-cases undone.0))),
      )
