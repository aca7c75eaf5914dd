-- ===== src/Admin/Rotate/Command/Restored.antt =====
-- The key files after `cmd_reality_rotate` has failed (apps/admin/src/main.rs).
use vpn.Prelude.{
  ◌≡◌, ◌≢◌, inl, inr, sym, ap, ◌∙◌, String, string_Eq, true, List, some, err, lookup, arith,
  Option-cases, Result-cases, Bool-cases,
}
use vpn.CompatConfig.Model.{CompatUser}
use vpn.CompatConfig.Users.{load_users}
use vpn.CompatConfig.Disk.{Host, Disk, create_parent}
use vpn.CompatConfig.Disk.Atomic.{write_file_mode-other}
use vpn.CompatConfig.Server.Apply.Steps.{remove_file-other}
use vpn.CompatConfig.Server.Json.{Value}
use vpn.Admin.{Machine, World}
use vpn.Admin.Apply.{document, service_available}
use vpn.Admin.Apply.Laws.{service_keeps}
use vpn.Admin.Rotate.{KeyFile, Names}
use vpn.Admin.Rotate.Files.{All, All-map, All-zip, saved}
use vpn.Admin.Rotate.Rollback.{AreRestored}
use vpn.Admin.Rotate.Command.{
  Candidate, Rotation, rotation_failed, key_files, candidate_reality, write_config_for_validation,
  validate_candidate, both_available, may_mutate, rotate_to, rotate_keys, cmd_reality_rotate,
}
use vpn.Admin.Rotate.Command.Failed.{IsRotatable, rotate_keys-AreRestored}

-- files that were the same before
AreRestored-before :
    (h : Host) (n : Names) (ks : List KeyFile) (d d' after : Disk)
    → All (λ k. lookup k.path d' ≡ lookup k.path d) ks
    → AreRestored h n ks d' after
    → AreRestored h n ks d after
AreRestored-before h n ks d d' after = All-zip (λ k same back. back ∙ ap (saved h n) same) ks

module _ (m : Machine) (r : Rotation) where
  pub validate_candidate-other :
      (h : Host) (doc : Value) (q : String) (d : Disk)
      → r.staged_file ≢ q
      → lookup q (validate_candidate m r h doc d).1 ≡ lookup q d
  unfolding validate_candidate write_config_for_validation
  validate_candidate-other h doc q d ne =
      let s = write_config_for_validation m r h doc d in
      let staged : lookup q s.1 ≡ lookup q d =
        (elim (Result-cases (create_parent h r.staged_file)) [
          | inr (x, e) ↦ ground arith
          | inl (_, e) ↦ elim (Option-cases (m.box.to_vec_pretty doc)) [
            | inl e' ↦ ground arith
            | inr (bytes, e') ↦
                ground (arith, write_file_mode-other h r.staged_file q bytes 438 d ne)
          ]
        ]) in
      let removed = remove_file-other h r.staged_file q s.1 ne in
      elim (Result-cases s.0) [
        | inr (x, e) ↦ ground (arith, staged, removed)
        | inl (_, e) ↦ ground (arith, staged, removed)
      ]

  pub may_mutate_keeps : (w : World) → (may_mutate m r w).1.disk ≡ w.disk
  unfolding may_mutate both_available
  may_mutate_keeps w =
      let s = service_available m w in
      ground (arith, (service_keeps m w).0, (service_keeps m s.1).0)

  rotate_to-AreRestored :
      (c : Candidate) (users : List CompatUser) (w : World)
      → IsRotatable m r (key_files m r c)
      → All (λ k. r.staged_file ≢ k.path) (key_files m r c)
      → (rotate_to m r c users w).0 ≡ err (rotation_failed true)
      → AreRestored (m.host 1) r.names (key_files m r c) w.disk (rotate_to m r c users w).1.disk
  unfolding rotate_to
  rotate_to-AreRestored c users w names staged failed =
      let reality = candidate_reality m r c in
      let doc = document m users reality in
      let v = validate_candidate m r (m.host 1) doc w.disk in
      let w1 : World = record w { disk = v.1 } in
      let g = may_mutate m r w1 in
      let ks = key_files m r c in
      let out = rotate_keys m r ks users reality doc g.1 in
      elim (Result-cases v.0) [
        | inr (x, e) ↦ absurd (ground arith)
        | inl (_, e) ↦ elim (Bool-cases g.0) [
          | inr e' ↦ absurd (ground arith)
          | inl e' ↦
              let reached : rotate_to m r c users w ≡ out = ground arith in
              rw reached (
                AreRestored-before (m.host 1) r.names ks w.disk g.1.disk out.1.disk
                  (All-map
                    (λ k ne.
                      ap (lookup k.path) (may_mutate_keeps w1)
                      ∙ validate_candidate-other (m.host 1) doc k.path w.disk ne)
                    ks staged)
                  (rotate_keys-AreRestored m r ks users reality doc g.1 names
                    (ap (λ o. o.0) (sym reached) ∙ failed)))
        ]
      ]

  -- A rotation that fails and reports the state before as restored has put back the three key files:
  -- each has the bytes and the mode it had, and its owner if the backup could be given it, and one
  -- that was not there is gone. The names of the files, of their backups and temporary files, and of
  -- the configuration are taken to differ.
  pub cmd_reality_rotate-AreRestored :
      (c : Candidate) (w : World)
      → r.generated ≡ some c
      → IsRotatable m r (key_files m r c)
      → All (λ k. r.staged_file ≢ k.path) (key_files m r c)
      → (cmd_reality_rotate m r w).0 ≡ err (rotation_failed true)
      → AreRestored (m.host 1) r.names (key_files m r c) w.disk (cmd_reality_rotate m r w).1.disk
  unfolding cmd_reality_rotate
  cmd_reality_rotate-AreRestored c w made names staged failed =
      elim (Result-cases (load_users (m.host 0) m.users_json m.users_file w.disk)) [
        | inr (x, e) ↦ absurd (ground arith)
        | inl (users, e) ↦
            let reached : cmd_reality_rotate m r w ≡ rotate_to m r c users w = ground arith in
            rw reached
              (rotate_to-AreRestored c users w names staged (ap (λ o. o.0) (sym reached) ∙ failed))
      ]
