-- ===== src/Admin/Rotate/Files.antt =====
-- The backup of a key file and its return (apps/admin/src/main.rs).
use vpn.Prelude.{
  ◌≡◌, ◌≢◌, inl, inr, refl, ◌∙◌, String, string_Eq, Bool, true, false, List, [], ◌∷◌, Option, none,
  some, ok, lookup, arith, Option-cases, Result-cases,
}
use vpn.CompatConfig.Disk.{File, Disk, Host}
use vpn.CompatConfig.Disk.Atomic.{
  lookup-insert_ne, lookup-insert_eq, lookup-remove, rename-other, rename-moved,
}
use vpn.CompatConfig.Server.Apply.Steps.{remove_file-other}
use vpn.Admin.Rotate.{
  KeyFile, Names, created, dressed, copy_to_backup, backup_for_rotate, restore_from_rotate_backup,
  remove_if_there, remove_rotate_backup, roll_back_file, backup_all, roll_back_files,
}

abbrev pub All : (KeyFile → Type 0) → List KeyFile → Type 0
All P [] = Unit {0}
All P (k ∷ ks) = P k × All P ks

pub All-map :
    {P Q : KeyFile → Type 0}
    → ((k : KeyFile) → P k → Q k)
    → (ks : List KeyFile) → All P ks
    → All Q ks
All-map f [] h = tt
All-map f (k ∷ ks) h = (f k h.0, All-map f ks h.1)

pub All-zip :
    {P Q R : KeyFile → Type 0}
    → ((k : KeyFile) → P k → Q k → R k)
    → (ks : List KeyFile) → All P ks
    → All Q ks
    → All R ks
All-zip f [] p q = tt
All-zip f (k ∷ ks) p q = (f k p.0 q.0, All-zip f ks p.1 q.1)

module _ (h : Host) (n : Names) where
  copy_to_backup-other :
      (src : File) (bak q : String) (d : Disk)
      → bak ≢ q
      → lookup q (copy_to_backup h n src bak d).1 ≡ lookup q d
  unfolding copy_to_backup
  copy_to_backup-other src bak q d ne = elim (Option-cases (h.short_write bak)) [
    | inr (part, e) ↦ ground (arith, lookup-insert_ne bak q (created h n part) d ne)
    | inl e ↦ ground (
      arith,
      lookup-insert_ne bak q (created h n src.bytes) d ne,
      lookup-insert_ne bak q (dressed h n src) d ne,
    )
  ]

  pub backup_for_rotate-other :
      (path q : String) (d : Disk)
      → n.bak path ≢ q
      → lookup q (backup_for_rotate h n path d).1 ≡ lookup q d
  unfolding backup_for_rotate
  backup_for_rotate-other path q d ne = elim (Option-cases (lookup (n.bak path) d)) [
    | inr (b, e) ↦ ground arith
    | inl e ↦ elim (Option-cases (lookup path d)) [
      | inl e' ↦ ground arith
      | inr (src, e') ↦ ground (arith, copy_to_backup-other src (n.bak path) q d ne)
    ]
  ]

  -- what a backup holds for a file that was there, if there was one
  abbrev pub saved : Option File → Option File
  saved (some src) = some (dressed h n src)
  saved none = none

  copied :
      (src : File) (bak : String) (d : Disk) (existed : Bool)
      → (copy_to_backup h n src bak d).0 ≡ ok existed
      → (existed ≡ true) × (lookup bak (copy_to_backup h n src bak d).1 ≡ some (dressed h n src))
  unfolding copy_to_backup
  copied src bak d existed done = elim (Option-cases (h.short_write bak)) [
    | inr (part, e) ↦ absurd (ground arith)
    | inl e ↦ (ground arith, ground (arith, lookup-insert_eq bak (dressed h n src) d))
  ]

  pub backed_up :
      (path : String) (d : Disk) (existed : Bool)
      → (backup_for_rotate h n path d).0 ≡ ok existed
      → (lookup (n.bak path) (backup_for_rotate h n path d).1 ≡ saved (lookup path d))
        × ((src : File) → lookup path d ≡ some src → existed ≡ true)
        × (lookup path d ≡ none → existed ≡ false)
  unfolding backup_for_rotate
  backed_up path d existed done = elim (Option-cases (lookup (n.bak path) d)) [
    | inr (b, e) ↦ absurd (ground arith)
    | inl e ↦ elim (Option-cases (lookup path d)) [
      | inl e' ↦ (ground arith, λ src e''. absurd (cc), λ e''. ground arith)
      | inr (src, e') ↦
          let (there, at_bak) = copied src (n.bak path) d existed (ground arith) in
          (ground (arith, at_bak), λ src' e''. there, λ e''. absurd (cc))
    ]
  ]

  pub roll_back_file-other :
      (path q : String) (existed : Bool) (d : Disk)
      → n.bak path ≢ q
      → path ≢ q
      → lookup q (roll_back_file h n path existed d).1 ≡ lookup q d
  unfolding roll_back_file restore_from_rotate_backup remove_if_there
  roll_back_file-other path q existed d ne1 ne2 = ground (
    arith,
    rename-other h (n.bak path) path q d ne1 ne2,
    lookup-remove path q d,
    string_Eq.beq_iff path q,
  )

  -- a file that was there comes back as its backup, and one that was not is gone
  pub rolled_back :
      (r : Host) (path : String) (existed : Bool) (d : Disk) (before : Option File)
      → lookup (n.bak path) d ≡ saved before
      → ((src : File) → before ≡ some src → existed ≡ true)
      → (before ≡ none → existed ≡ false)
      → (roll_back_file r n path existed d).0 ≡ true
      → lookup path (roll_back_file r n path existed d).1 ≡ saved before
  unfolding roll_back_file restore_from_rotate_backup remove_if_there
  rolled_back r path existed d none at_bak was was_not done =
      ground (arith, was_not refl, lookup-remove path path d, string_Eq.beq_iff path path)
  rolled_back r path existed d (some src) at_bak was was_not done =
      ground
        (arith, was src refl, rename-moved r (n.bak path) path d {file = dressed h n src} at_bak)

  pub backup_all-other :
      (ks : List KeyFile) (q : String) (d : Disk)
      → All (λ k. n.bak k.path ≢ q) ks
      → lookup q (backup_all h n ks d).1 ≡ lookup q d
  unfolding backup_all remove_rotate_backup
  backup_all-other [] q d ne = refl
  backup_all-other (k ∷ ks) q d ne =
      let b = backup_for_rotate h n k.path d in
      let one = backup_for_rotate-other k.path q d ne.0 in
      let rest = backup_all-other ks q b.1 ne.1 in
      let undone = remove_file-other h (n.bak k.path) q (backup_all h n ks b.1).1 ne.0 in
      elim (Result-cases b.0) [
        | inr (x, e) ↦ ground (arith, one)
        | inl (existed, e) ↦ elim (Result-cases (backup_all h n ks b.1).0) [
          | inl (more, e') ↦ ground (arith, one, rest)
          | inr (x, e') ↦ ground (arith, one, rest, undone)
        ]
      ]

  pub roll_back_files-other :
      (ks : List KeyFile) (existed : List Bool) (q : String) (d : Disk)
      → All (λ k. (n.bak k.path ≢ q) × (k.path ≢ q)) ks
      → lookup q (roll_back_files h n ks existed d).1 ≡ lookup q d
  unfolding roll_back_files
  roll_back_files-other [] existed q d ne = refl
  roll_back_files-other (k ∷ ks) [] q d ne = refl
  roll_back_files-other (k ∷ ks) (was ∷ existed) q d ne =
      let f = roll_back_file h n k.path was d in
      roll_back_files-other ks existed q f.1 ne.1
      ∙ roll_back_file-other k.path q was d ne.0.0 ne.0.1
