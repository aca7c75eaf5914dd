-- ===== src/Admin/Apply/Laws.antt =====
-- What a change of the configuration leaves (apps/admin/src/main.rs).
use vpn.Prelude.{
  ℕ, ◌≡◌, ◌≢◌, inl, inr, String, string_Eq, Bool, List, lookup, arith, Result-cases, Option-cases,
}
use vpn.CompatConfig.Model.{CompatUser, RealityServerParams}
use vpn.CompatConfig.Disk.{Host, copy, write_file_mode}
use vpn.CompatConfig.Disk.Atomic.{write_file_mode-other, rename-other}
use vpn.CompatConfig.Server.Apply.{apply_config_atomically}
use vpn.CompatConfig.Server.Apply.Laws.{apply-other}
use vpn.CompatConfig.Server.Apply.Steps.{copy-other}
use vpn.CompatConfig.Server.Json.{Value}
use vpn.Admin.{Machine, World}
use vpn.Admin.Service.{is_available, is_unit_installed, reload_and_verify, ask_keeps, reload_loads}
use vpn.Admin.Apply.{
  commit_applied_config_stamp, service_available, already_current, recover, commit_stamp, go_live,
  apply_and_reload, apply_document, document, render_and_apply_singbox_config,
}

-- A file that is none of those that a change of the configuration writes.
pub record IsElsewhere (m : Machine) (h : Host) (q : String) : Type 0 where
  pub config : m.singbox_config_file ≢ q
  pub config_tmp : h.tmp_of m.singbox_config_file ≢ q
  pub config_backup : h.backup_of m.singbox_config_file ≢ q
  pub stamp : m.stamp_file ≢ q
  pub stamp_tmp : m.stamp_tmp ≢ q

module _ (m : Machine) where
  pub service_keeps :
      (w : World)
      → ((service_available m w).1.disk ≡ w.disk) × ((service_available m w).1.loaded ≡ w.loaded)
  unfolding service_available
  service_keeps w =
      let a = ask_keeps m w in
      let b = ask_keeps m (is_available m w).1 in
      (ground (arith, a.0, b.2), ground (arith, a.1, b.3))

  pub current_keeps :
      (doc : Value) (fp : List ℕ) (service : Bool) (w : World)
      → ((already_current m doc fp service w).1.disk ≡ w.disk)
        × ((already_current m doc fp service w).1.loaded ≡ w.loaded)
  unfolding already_current
  current_keeps doc fp service w =
      let a = ask_keeps m w in (ground (arith, a.4), ground (arith, a.5))

module _ (m : Machine) (h : Host) (q : String) (away : IsElsewhere m h q) where
  recover-other : (w : World) → lookup q (recover m h w).1.disk ≡ lookup q w.disk
  unfolding recover
  recover-other w =
      let target = m.singbox_config_file in
      let backup = h.backup_of target in
      elim (Option-cases (lookup backup w.disk)) [
        | inl e ↦ ground arith
        | inr (file, e) ↦
            let c = copy h backup target w.disk in
            let w1 = record w { disk = c.1 } in
            let copied = copy-other h backup target q w.disk away.config in
            let (kept, _) = reload_loads m w1 in
            elim (Result-cases c.0) [
              | inr (x, e') ↦ ground (arith, copied)
              | inl (_, e') ↦ ground (arith, copied, kept)
            ]
      ]

  commit_stamp-other :
      (fp : List ℕ) (w : World) → lookup q (commit_stamp m h fp w).1.disk ≡ lookup q w.disk
  unfolding commit_stamp commit_applied_config_stamp
  commit_stamp-other fp w =
      let t = write_file_mode h m.stamp_tmp fp 384 w.disk in
      ground (
        arith,
        write_file_mode-other h m.stamp_tmp q fp 384 w.disk away.stamp_tmp,
        rename-other h m.stamp_tmp m.stamp_file q t.1 away.stamp_tmp away.stamp,
      )

  go_live-other :
      (users : List CompatUser) (reality : RealityServerParams) (fp : List ℕ) (w : World)
      → lookup q (go_live m h users reality fp w).1.disk ≡ lookup q w.disk
  unfolding go_live
  go_live-other users reality fp w =
      let r = reload_and_verify m w in
      let (kept, _) = reload_loads m w in
      elim (Result-cases r.0) [
        | inr (x, e) ↦ ground (arith, kept, recover-other r.1)
        | inl (_, e) ↦ ground (arith, kept, recover-other r.1, commit_stamp-other fp r.1)
      ]

  apply_and_reload-other :
      (users : List CompatUser) (reality : RealityServerParams) (doc : Value) (fp : List ℕ)
      (w : World)
      → lookup q (apply_and_reload m h users reality doc fp w).1.disk ≡ lookup q w.disk
  unfolding apply_and_reload
  apply_and_reload-other users reality doc fp w =
      let a = apply_config_atomically h m.box doc m.singbox_config_file w.disk in
      let w1 = record w { disk = a.1 } in
      let applied =
        apply-other h m.box doc m.singbox_config_file q w.disk away.config_tmp away.config
          away.config_backup in
      let w2 = (is_available m w1).1 in
      let w3 = (is_unit_installed m w2).1 in
      elim (Result-cases a.0) [
        | inr (x, e) ↦ ground (arith, applied)
        | inl (_, e) ↦ ground (
          arith,
          applied,
          (ask_keeps m w1).0,
          (ask_keeps m w2).2,
          go_live-other users reality fp w3,
        )
      ]

  pub render_and_apply-other :
      (users : List CompatUser) (live : Bool) (w : World)
      → lookup q (render_and_apply_singbox_config m h users live w).1.disk ≡ lookup q w.disk
  unfolding render_and_apply_singbox_config apply_document
  render_and_apply-other users live w = elim (Option-cases m.reality) [
    | inl e ↦ ground arith
    | inr (reality, e) ↦
        let doc = document m users reality in
        elim (Option-cases (m.fingerprint doc)) [
          | inl e' ↦ ground arith
          | inr (fp, e') ↦
              let s = service_available m w in
              let c = already_current m doc fp s.0 s.1 in
              ground (
                arith,
                (service_keeps m w).0,
                (current_keeps m doc fp s.0 s.1).0,
                apply_and_reload-other users reality doc fp c.1,
              )
        ]
  ]
