-- ===== src/Admin/Rotate/Command/Refused.antt =====
-- A `cmd_reality_rotate` that stops before it installs anything (apps/admin/src/main.rs).
use vpn.Prelude.{
  ◌≡◌, ◌≢◌, inl, inr, refl, sym, ap, ◌∙◌, string_Eq, Bool, List, [], ◌∷◌, some, err, lookup, arith,
  Result-cases, Option-cases, Bool-cases, subst,
}
use vpn.CompatConfig.Model.{CompatUser, RealityServerParams}
use vpn.CompatConfig.Users.{load_users}
use vpn.CompatConfig.Disk.{Disk}
use vpn.CompatConfig.Server.Json.{Value}
use vpn.Admin.{Machine, World}
use vpn.Admin.Apply.{document}
use vpn.Admin.Rotate.{KeyFile, backup_all}
use vpn.Admin.Rotate.Files.{All, All-map, All-zip, backup_all-other}
use vpn.Admin.Rotate.Rollback.{AllSeparate, baks_off}
use vpn.Admin.Rotate.Command.{
  Candidate, Rotation, RotateError, rotation_failed, key_files, candidate_reality,
  validate_candidate, may_mutate, roll_back, fail, put_in_place, rotate_keys, rotate_to,
  cmd_reality_rotate,
}
use vpn.Admin.Rotate.Command.Failed.{put_in_place-FailsLike}
use vpn.Admin.Rotate.Command.Restored.{validate_candidate-other, may_mutate_keeps}

abbrev pub AreSame : List KeyFile → Disk → Disk → Type 0
AreSame ks d d' = All (λ k. lookup k.path d' ≡ lookup k.path d) ks

AreSame-refl : (ks : List KeyFile) (d : Disk) → AreSame ks d d
AreSame-refl [] d = tt
AreSame-refl (k ∷ ks) d = (refl, AreSame-refl ks d)

AreSame-trans :
    (ks : List KeyFile) (d1 d2 d3 : Disk) → AreSame ks d1 d2 → AreSame ks d2 d3 → AreSame ks d1 d3
AreSame-trans ks d1 d2 d3 = All-zip (λ k p q. q ∙ p) ks

module _ (m : Machine) (r : Rotation) where
  put_in_place_fails :
      (ks : List KeyFile) (existed : List Bool) (users : List CompatUser)
      (reality : RealityServerParams) (doc : Value) (w : World) (e : RotateError)
      → ((b : Bool) → e ≢ rotation_failed b)
      → (put_in_place m r ks existed users reality doc w).0 ≢ err e
  unfolding fail
  put_in_place_fails ks existed users reality doc w e other failed =
      let (was, w', same, _) = put_in_place-FailsLike m r ks existed users reality doc w e failed in
      other (roll_back m r ks existed was w').0 (ground arith)

  rotate_keys-AreSame :
      (ks : List KeyFile) (users : List CompatUser) (reality : RealityServerParams) (doc : Value)
      (w : World) (e : RotateError)
      → AllSeparate r.names ks
      → ((b : Bool) → e ≢ rotation_failed b)
      → (rotate_keys m r ks users reality doc w).0 ≡ err e
      → AreSame ks w.disk (rotate_keys m r ks users reality doc w).1.disk
  unfolding rotate_keys
  rotate_keys-AreSame ks users reality doc w e names other failed =
      let b = backup_all (m.host 1) r.names ks w.disk in
      let w1 : World = record w { disk = b.1 } in
      elim (Result-cases b.0) [
        | inl (existed, e') ↦
            absurd (put_in_place_fails ks existed users reality doc w1 e other (ground arith))
        | inr (x, e') ↦
            let stopped : (rotate_keys m r ks users reality doc w).1.disk ≡ b.1 = ground arith in
            rw stopped (
              All-map (λ k ne. backup_all-other (m.host 1) r.names ks k.path w.disk ne) ks
                (baks_off r.names ks names))
      ]

  rotate_to-AreSame :
      (c : Candidate) (users : List CompatUser) (w : World) (e : RotateError)
      → AllSeparate r.names (key_files m r c)
      → All (λ k. r.staged_file ≢ k.path) (key_files m r c)
      → ((b : Bool) → e ≢ rotation_failed b)
      → (rotate_to m r c users w).0 ≡ err e
      → AreSame (key_files m r c) w.disk (rotate_to m r c users w).1.disk
  unfolding rotate_to
  rotate_to-AreSame c users w e names staged other failed =
      let reality = candidate_reality m r c in
      let doc = document m users reality in
      let v = validate_candidate m r (m.host 1) doc w.disk in
      let w1 : World = record w { disk = v.1 } in
      let g = may_mutate m r w1 in
      let ks = key_files m r c in
      let before : AreSame ks w.disk v.1 =
        All-map (λ k ne. validate_candidate-other m r (m.host 1) doc k.path w.disk ne) ks staged in
      let asked : AreSame ks w.disk g.1.disk =
        subst (AreSame ks w.disk) (sym (may_mutate_keeps m r w1)) before in
      elim (Result-cases v.0) [
        | inr (x, e') ↦
            let stopped : (rotate_to m r c users w).1.disk ≡ v.1 = ground arith in rw stopped before
        | inl (_, e') ↦ elim (Bool-cases g.0) [
          | inr e'' ↦
              let stopped : (rotate_to m r c users w).1.disk ≡ g.1.disk = ground arith in
              rw stopped asked
          | inl e'' ↦
              let out = rotate_keys m r ks users reality doc g.1 in
              let reached : rotate_to m r c users w ≡ out = ground arith in
              rw reached (
                AreSame-trans ks w.disk g.1.disk out.1.disk asked (
                  rotate_keys-AreSame ks users reality doc g.1 e names other
                    (ap (λ o. o.0) (sym reached) ∙ failed)))
        ]
      ]

  -- A rotation that stops with any error but a failed rotation, because there is no sing-box, no
  -- readable store, no keys that could be generated, a configuration that does not pass the check, services that
  -- cannot be controlled, or a backup that cannot be made, leaves the three key files exactly as they
  -- were. The names of the files and of their backups, and of the staged configuration, are taken to
  -- differ.
  pub cmd_reality_rotate-AreSame :
      (c : Candidate) (w : World) (e : RotateError)
      → ((x : Candidate) → r.generated ≡ some x → x ≡ c)
      → AllSeparate r.names (key_files m r c)
      → All (λ k. r.staged_file ≢ k.path) (key_files m r c)
      → ((b : Bool) → e ≢ rotation_failed b)
      → (cmd_reality_rotate m r w).0 ≡ err e
      → AreSame (key_files m r c) w.disk (cmd_reality_rotate m r w).1.disk
  unfolding cmd_reality_rotate
  cmd_reality_rotate-AreSame c w e made names staged other failed =
      let ks = key_files m r c in
      elim (Bool-cases m.singbox_binary_exists) [
        | inr e1 ↦
            let stopped : (cmd_reality_rotate m r w).1 ≡ w = ground arith in
            rw stopped (AreSame-refl ks w.disk)
        | inl e1 ↦ elim (Result-cases (load_users (m.host 0) m.users_json m.users_file w.disk)) [
          | inr (x, e2) ↦
              let stopped : (cmd_reality_rotate m r w).1 ≡ w = ground arith in
              rw stopped (AreSame-refl ks w.disk)
          | inl (users, e2) ↦ elim (Option-cases r.generated) [
            | inl e3 ↦
                let stopped : (cmd_reality_rotate m r w).1 ≡ w = ground arith in
                rw stopped (AreSame-refl ks w.disk)
            | inr (x, e3) ↦
                let named : r.generated ≡ some c = e3 ∙ ap some (made x e3) in
                let reached : cmd_reality_rotate m r w ≡ rotate_to m r c users w = ground arith in
                rw reached (
                  rotate_to-AreSame c users w e names staged other
                    (ap (λ o. o.0) (sym reached) ∙ failed))
          ]
        ]
      ]
