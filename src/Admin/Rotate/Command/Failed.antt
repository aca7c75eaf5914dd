-- ===== src/Admin/Rotate/Command/Failed.antt =====
-- A rotation of keys that fails (apps/admin/src/main.rs).
use vpn.Prelude.{
  ◌≡◌, ◌≢◌, inl, inr, sym, ap, ◌∙◌, String, string_Eq, Bool, true, false, List, Result, ok, err,
  lookup, arith, Result-cases, Bool-cases, if◌then◌else◌, ◌&&◌,
}
use vpn.CompatConfig.Model.{CompatUser, RealityServerParams}
use vpn.CompatConfig.Disk.{Disk}
use vpn.CompatConfig.Server.Apply.{apply_config_atomically}
use vpn.CompatConfig.Server.Apply.Laws.{apply-other}
use vpn.CompatConfig.Server.Json.{Value}
use vpn.Admin.{Machine, World}
use vpn.Admin.Apply.{is_rejected}
use vpn.Admin.Rotate.{KeyFile, backup_all, install_all, roll_back_files}
use vpn.Admin.Rotate.Files.{All, All-map, All-zip}
use vpn.Admin.Rotate.Rollback.{AllSeparate, AreKept, AreRestored, roll_back_files-AreRestored}
use vpn.Admin.Rotate.Command.{
  Rotation, RotateError, rotation_failed, restore_config, reload_live, restart_subscription,
  roll_back, fail, try_handshake, take_up, put_in_place, rotate_keys,
}
use vpn.Admin.Rotate.Command.Laws.{
  install_all-other, reload_live_keeps, restart_subscription_keeps, restore_config-other,
}

module _ (m : Machine) (r : Rotation) where
  -- a file that neither the installation of the keys nor the configuration writes
  pub record IsOutside (ks : List KeyFile) (q : String) : Type 0 where
    pub keys : All (λ k. (r.names.rotate_tmp k.path ≢ q) × (k.path ≢ q)) ks
    pub config : m.singbox_config_file ≢ q
    pub config_tmp : (m.host 3).tmp_of m.singbox_config_file ≢ q
    pub config_backup : (m.host 3).backup_of m.singbox_config_file ≢ q

  -- The files of a rotation have names of their own.
  pub record IsRotatable (ks : List KeyFile) : Type 0 where
    pub separate : AllSeparate r.names ks
    pub baks : All (λ k. IsOutside ks (r.names.bak k.path)) ks
    pub config : All (λ k. m.singbox_config_file ≢ k.path) ks

  -- what a rollback leaves of a file that is not the configuration
  roll_back-other :
      (ks : List KeyFile) (existed : List Bool) (applied : Bool) (w : World) (q : String)
      → m.singbox_config_file ≢ q
      → lookup q (roll_back m r ks existed applied w).1.disk
        ≡ lookup q (roll_back_files (m.host 4) r.names ks existed w.disk).1
  unfolding roll_back
  roll_back-other ks existed applied w q ne =
      let f = roll_back_files (m.host 4) r.names ks existed w.disk in
      let c = (if applied then restore_config m r (m.host 4) f.1 else (true, f.1)) in
      let w1 : World = record w { disk = c.1 } in
      let back : lookup q c.1 ≡ lookup q f.1 = (elim (Bool-cases applied) [
        | inl e ↦ ground (arith, restore_config-other m r (m.host 4) q f.1 ne)
        | inr e ↦ ground arith
      ]) in
      ap (lookup q)
        (restart_subscription_keeps m r (reload_live m r w1).1 ∙ reload_live_keeps m r w1)
      ∙ back

  rolled_back_files :
      (ks : List KeyFile) (existed : List Bool) (applied : Bool) (w : World)
      → (roll_back m r ks existed applied w).0 ≡ true
      → (roll_back_files (m.host 4) r.names ks existed w.disk).0 ≡ true
  unfolding roll_back
  rolled_back_files ks existed applied w done =
      ground (arith, Bool-cases (roll_back_files (m.host 4) r.names ks existed w.disk).0)

  -- a rollback that says that it has worked has put back the files of the backups
  fail-AreRestored :
      (ks : List KeyFile) (existed : List Bool) (applied : Bool) (before : Disk) (w : World)
      → IsRotatable ks
      → (backup_all (m.host 1) r.names ks before).0 ≡ ok existed
      → AreKept r.names ks (backup_all (m.host 1) r.names ks before).1 w.disk
      → (fail m r ks existed applied w).0 ≡ err (rotation_failed true)
      → AreRestored (m.host 1) r.names ks before (fail m r ks existed applied w).1.disk
  unfolding fail
  fail-AreRestored ks existed applied before w names backed kept failed =
      let done : (roll_back m r ks existed applied w).0 ≡ true = ground arith in
      All-zip (λ k ne back. roll_back-other ks existed applied w k.path ne ∙ back) ks names.config
        (roll_back_files-AreRestored (m.host 1) (m.host 4) r.names ks existed before w.disk
          names.separate backed kept (rolled_back_files ks existed applied w done))

  -- A step that ends in a rollback came to it with files that had not been touched.
  abbrev pub FailsLike : List KeyFile → List Bool → World → Result RotateError Bool × World → Type 0
  FailsLike ks existed w out =
      (applied : Bool) × (w' : World) × (out ≡ fail m r ks existed applied w')
      × ((q : String) → IsOutside ks q → lookup q w'.disk ≡ lookup q w.disk)

  take_up-FailsLike :
      (ks : List KeyFile) (existed : List Bool) (users : List CompatUser)
      (reality : RealityServerParams) (w : World) (e : RotateError)
      → (take_up m r ks existed users reality w).0 ≡ err e
      → FailsLike ks existed w (take_up m r ks existed users reality w)
  unfolding take_up
  take_up-FailsLike ks existed users reality w e failed =
      let l = reload_live m r w in
      let kept = reload_live_keeps m r w in
      let s = restart_subscription m r l.1 in
      let kept' = restart_subscription_keeps m r l.1 in
      elim (Result-cases l.0) [
        | inr (x, e1) ↦ (true, l.1, ground arith, λ q out. ap (lookup q) kept)
        | inl (a, e1) ↦ elim (Result-cases s.0) [
          | inr (x, e2) ↦ (true, s.1, ground arith, λ q out. ap (lookup q) (kept' ∙ kept))
          | inl (b, e2) ↦
              elim (Bool-cases (is_rejected (try_handshake m r users reality (a && b)))) [
                | inl e3 ↦ (true, s.1, ground arith, λ q out. ap (lookup q) (kept' ∙ kept))
                | inr e3 ↦ absurd (ground arith)
              ]
        ]
      ]

  pub put_in_place-FailsLike :
      (ks : List KeyFile) (existed : List Bool) (users : List CompatUser)
      (reality : RealityServerParams) (doc : Value) (w : World) (e : RotateError)
      → (put_in_place m r ks existed users reality doc w).0 ≡ err e
      → FailsLike ks existed w (put_in_place m r ks existed users reality doc w)
  unfolding put_in_place
  put_in_place-FailsLike ks existed users reality doc w e failed =
      let i = install_all (m.host 2) r.names ks w.disk in
      let a = apply_config_atomically (m.host 3) m.box doc m.singbox_config_file i.1 in
      let installed = λ (q : String) (out : IsOutside ks q).
        install_all-other (m.host 2) r.names ks q w.disk out.keys in
      let applied = λ (q : String) (out : IsOutside ks q).
        apply-other (m.host 3) m.box doc m.singbox_config_file q i.1 out.config_tmp out.config
          out.config_backup
        ∙ installed q out in
      elim (Result-cases i.0) [
        | inr (x, e1) ↦ (false, record w { disk = i.1 }, ground arith, installed)
        | inl (_, e1) ↦ elim (Result-cases a.0) [
          | inr (x, e2) ↦ (false, record w { disk = a.1 }, ground arith, applied)
          | inl (_, e2) ↦
              let (was, w', same, kept) =
                take_up-FailsLike ks existed users reality (record w { disk = a.1 }) e
                  (ground arith) in
              (was, w', ground (arith, same), λ q out. kept q out ∙ applied q out)
        ]
      ]

  pub rotate_keys-AreRestored :
      (ks : List KeyFile) (users : List CompatUser) (reality : RealityServerParams) (doc : Value)
      (w : World)
      → IsRotatable ks
      → (rotate_keys m r ks users reality doc w).0 ≡ err (rotation_failed true)
      → AreRestored (m.host 1) r.names ks w.disk (rotate_keys m r ks users reality doc w).1.disk
  unfolding rotate_keys
  rotate_keys-AreRestored ks users reality doc w names failed =
      let b = backup_all (m.host 1) r.names ks w.disk in
      let w1 : World = record w { disk = b.1 } in
      elim (Result-cases b.0) [
        | inr (x, e) ↦ absurd (ground arith)
        | inl (existed, e) ↦
            let out = put_in_place m r ks existed users reality doc w1 in
            let reached : rotate_keys m r ks users reality doc w ≡ out = ground arith in
            let stopped : out.0 ≡ err (rotation_failed true) = ground arith in
            let (was, w', same, kept) =
              put_in_place-FailsLike ks existed users reality doc w1 (rotation_failed true)
                stopped in
            rw (reached ∙ same) (
              fail-AreRestored ks existed was w.disk w' names e
                (All-map (λ k out'. kept (r.names.bak k.path) out') ks names.baks)
                (ap (λ o. o.0) (sym same) ∙ stopped))
      ]
