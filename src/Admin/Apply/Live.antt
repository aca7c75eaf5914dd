-- ===== src/Admin/Apply/Live.antt =====
-- What a change that is reported live has loaded (apps/admin/src/main.rs).
use vpn.Prelude.{
  ℕ, ◌≡◌, inl, inr, string_Eq, Bool, true, false, List, some, ok, lookup, arith, Result-cases,
  Option-cases, Bool-cases,
}
use vpn.CompatConfig.Model.{CompatUser, RealityServerParams}
use vpn.CompatConfig.Disk.{File, Host}
use vpn.CompatConfig.Disk.Backup.{AreApart}
use vpn.CompatConfig.Server.Apply.{apply_config_atomically}
use vpn.CompatConfig.Server.Apply.Done.{apply_config_done}
use vpn.CompatConfig.Server.Json.{Value}
use vpn.Admin.{Machine, World}
use vpn.Admin.Service.{
  on_disk, is_available, is_unit_installed, reload_and_verify, ask_keeps, reload_loads,
}
use vpn.Admin.Apply.{
  verify_reality_handshake_or_warn, stamp_matches, target_matches, service_available,
  already_current, commit_stamp, is_rejected, go_live, apply_and_reload, apply_document, document,
  render_and_apply_singbox_config,
}
use vpn.Admin.Apply.Laws.{service_keeps, current_keeps}

-- How a change came to be reported live. Its configuration was made live: it passed the check, systemd
-- has loaded it, and no test client was turned away. Or it was found in place: the file holds it, its
-- fingerprint is stamped, and nothing was written or loaded.
pub data IsLive (m : Machine) (users : List CompatUser) (reality : RealityServerParams)
    (before after : World) : Type 0 where
  was_loaded :
      (bytes : List ℕ)
      → m.box.to_vec_pretty (document m users reality) ≡ some bytes
      → m.box.check bytes ≡ ok tt
      → after.loaded ≡ some bytes
      → is_rejected (verify_reality_handshake_or_warn m users reality) ≡ false
      → IsLive m users reality before after
  was_current :
      (fp : List ℕ) (file : File)
      → m.fingerprint (document m users reality) ≡ some fp
      → lookup m.singbox_config_file before.disk ≡ some file
      → m.parses_to file.bytes (document m users reality) ≡ true
      → stamp_matches m fp before.disk ≡ true
      → after.disk ≡ before.disk
      → after.loaded ≡ before.loaded
      → IsLive m users reality before after

module _ (m : Machine) (h : Host) (users : List CompatUser) (reality : RealityServerParams) where
  commit_stamp-loaded : (fp : List ℕ) (w : World) → (commit_stamp m h fp w).1.loaded ≡ w.loaded
  unfolding commit_stamp
  commit_stamp-loaded fp w = ground arith

  go_live-loaded :
      (fp : List ℕ) (w : World)
      → (go_live m h users reality fp w).0 ≡ ok true
      → ((go_live m h users reality fp w).1.loaded ≡ on_disk m w)
        × (is_rejected (verify_reality_handshake_or_warn m users reality) ≡ false)
  unfolding go_live
  go_live-loaded fp w done =
      let r = reload_and_verify m w in
      let (_, loads) = reload_loads m w in
      elim (Result-cases r.0) [
        | inr (x, e) ↦ absurd (ground arith)
        | inl (_, e) ↦
            let loaded = loads (ground arith) in
            (ground (arith, loaded, commit_stamp-loaded fp r.1), ground arith)
      ]

  apply_and_reload-loaded :
      (doc : Value) (fp : List ℕ) (w : World)
      → AreApart h m.singbox_config_file
      → (apply_and_reload m h users reality doc fp w).0 ≡ ok true
      → (bytes : List ℕ) × (m.box.to_vec_pretty doc ≡ some bytes)
        × (m.box.check bytes ≡ ok tt)
        × ((apply_and_reload m h users reality doc fp w).1.loaded ≡ some bytes)
        × (is_rejected (verify_reality_handshake_or_warn m users reality) ≡ false)
  unfolding apply_and_reload
  apply_and_reload-loaded doc fp w apart done =
      let a = apply_config_atomically h m.box doc m.singbox_config_file w.disk in
      let w1 = record w { disk = a.1 } in
      let w2 = (is_available m w1).1 in
      let w3 = (is_unit_installed m w2).1 in
      elim (Result-cases a.0) [
        | inr (x, e) ↦ absurd (ground arith)
        | inl (_, e) ↦
            let applied =
              apply_config_done h m.box doc m.singbox_config_file w.disk apart (ground arith) in
            let (loaded, tried) = go_live-loaded fp w3 (ground arith) in
            (
              applied.live.bytes,
              applied.rendered,
              applied.checked,
              ground (arith, loaded, applied.is_live, (ask_keeps m w1).0, (ask_keeps m w2).2),
              tried,
            )
      ]

  current_true :
      (doc : Value) (fp : List ℕ) (service : Bool) (w : World)
      → (already_current m doc fp service w).0 ≡ true
      → (file : File) × (lookup m.singbox_config_file w.disk ≡ some file)
        × (m.parses_to file.bytes doc ≡ true)
        × (stamp_matches m fp w.disk ≡ true)
  unfolding already_current target_matches
  current_true doc fp service w current =
      elim (Option-cases (lookup m.singbox_config_file w.disk)) [
        | inl e ↦ absurd (ground arith)
        | inr (file, e) ↦ (file, e, ground arith, ground arith)
      ]

  -- A change that is reported live was made live, or its file and stamp were found in place.
  pub render_and_apply-IsLive :
      (live : Bool) (w : World)
      → AreApart h m.singbox_config_file
      → m.reality ≡ some reality
      → (render_and_apply_singbox_config m h users live w).0 ≡ ok true
      → IsLive m users reality w (render_and_apply_singbox_config m h users live w).1
  unfolding render_and_apply_singbox_config apply_document
  render_and_apply-IsLive live w apart keyset done =
      let doc = document m users reality in
      elim (Option-cases (m.fingerprint doc)) [
        | inl e ↦ absurd (ground arith)
        | inr (fp, e) ↦
            let s = service_available m w in
            let c = already_current m doc fp s.0 s.1 in
            let (d1, l1) = service_keeps m w in
            let (d2, l2) = current_keeps m doc fp s.0 s.1 in
            elim (Bool-cases c.0) [
              | inl current ↦
                  let (file, there, parses, stamp) = current_true doc fp s.0 s.1 current in
                  was_current fp file e (ground (arith, there, d1)) parses
                    (ground (arith, stamp, d1)) (ground (arith, d1, d2)) (ground (arith, l1, l2))
              | inr stale ↦
                  let (bytes, printed, checked, loaded, tried) =
                    apply_and_reload-loaded doc fp c.1 apart (ground arith) in
                  was_loaded bytes printed checked (ground (arith, loaded)) tried
            ]
      ]
