-- ===== src/Admin/Rotate/Command/Laws.antt =====
-- What the steps of a rotation of keys leave alone (apps/admin/src/main.rs).
use vpn.Prelude.{
  ◌≡◌, ◌≢◌, inl, inr, refl, ℕ, String, string_Eq, List, [], ◌∷◌, lookup, arith, Option-cases,
  Result-cases,
}
use vpn.CompatConfig.Disk.{Disk, Host, write_file_mode, preserve_ownership_before_rename, copy}
use vpn.CompatConfig.Disk.Atomic.{write_file_mode-other, preserve-other, rename-other}
use vpn.CompatConfig.Server.Apply.Steps.{copy-other, chmod-other}
use vpn.Admin.{Machine, World}
use vpn.Admin.Service.{reload_and_verify, reload_loads}
use vpn.Admin.Apply.{service_available}
use vpn.Admin.Apply.Laws.{service_keeps}
use vpn.Admin.Rotate.{KeyFile, Names, install_rotated_key_file, keep_mode, install_all}
use vpn.Admin.Rotate.Files.{All}
use vpn.Admin.Rotate.Command.{Rotation, restore_config, reload_live, restart_subscription}

-- The installation of a file leaves those of other names.
install_rotated_key_file-other :
    (h : Host) (n : Names) (target q : String) (bytes : List ℕ) (d : Disk)
    → n.rotate_tmp target ≢ q
    → target ≢ q
    → lookup q (install_rotated_key_file h n target bytes d).1 ≡ lookup q d
unfolding install_rotated_key_file keep_mode
install_rotated_key_file-other h n target q bytes d ne1 ne2 =
    let tmp = n.rotate_tmp target in
    let w = write_file_mode h tmp bytes 384 d in
    let k = keep_mode h n tmp target w.1 in
    let o = preserve_ownership_before_rename h tmp target k.1 in
    let written = write_file_mode-other h tmp q bytes 384 d ne1 in
    let dressed : lookup q k.1 ≡ lookup q w.1 = (elim (Option-cases (lookup target w.1)) [
      | inl e ↦ ground arith
      | inr (meta, e) ↦ ground (arith, chmod-other h tmp q meta.mode w.1 ne1)
    ]) in
    let owned = preserve-other h tmp target q k.1 ne1 in
    let moved = rename-other h tmp target q o.1 ne1 ne2 in
    elim (Result-cases w.0) [
      | inr (x, e) ↦ ground (arith, written)
      | inl (_, e) ↦ elim (Result-cases k.0) [
        | inr (x, e') ↦ ground (arith, written, dressed)
        | inl (_, e') ↦ elim (Result-cases o.0) [
          | inr (x, e'') ↦ ground (arith, written, dressed, owned)
          | inl (_, e'') ↦ ground (arith, written, dressed, owned, moved)
        ]
      ]
    ]

pub install_all-other :
    (h : Host) (n : Names) (ks : List KeyFile) (q : String) (d : Disk)
    → All (λ k. (n.rotate_tmp k.path ≢ q) × (k.path ≢ q)) ks
    → lookup q (install_all h n ks d).1 ≡ lookup q d
unfolding install_all
install_all-other h n [] q d ne = refl
install_all-other h n (k ∷ ks) q d ne =
    let i = install_rotated_key_file h n k.path k.candidate d in
    let one = install_rotated_key_file-other h n k.path q k.candidate d ne.0.0 ne.0.1 in
    let rest = install_all-other h n ks q i.1 ne.1 in
    elim (Result-cases i.0) [
      | inr (x, e) ↦ ground (arith, one)
      | inl (_, e) ↦ ground (arith, one, rest)
    ]

module _ (m : Machine) (r : Rotation) where
  pub reload_live_keeps : (w : World) → (reload_live m r w).1.disk ≡ w.disk
  unfolding reload_live
  reload_live_keeps w =
      let s = service_available m w in
      let kept = (service_keeps m w).0 in
      let (reloaded, _) = reload_loads m s.1 in
      elim (Result-cases (reload_and_verify m s.1).0) [
        | inl (_, e) ↦ ground (arith, kept, reloaded)
        | inr (x, e) ↦ ground (arith, kept, reloaded)
      ]

  pub restart_subscription_keeps : (w : World) → (restart_subscription m r w).1.disk ≡ w.disk
  unfolding restart_subscription
  restart_subscription_keeps w = reload_live_keeps w

  pub restore_config-other :
      (h : Host) (q : String) (d : Disk)
      → m.singbox_config_file ≢ q
      → lookup q (restore_config m r h d).1 ≡ lookup q d
  unfolding restore_config
  restore_config-other h q d ne =
      let backup = h.backup_of m.singbox_config_file in
      let copied = copy-other h backup m.singbox_config_file q d ne in
      elim (Option-cases (lookup backup d)) [
        | inl e ↦ ground arith
        | inr (file, e) ↦ elim (Result-cases (copy h backup m.singbox_config_file d).0) [
          | inl (_, e') ↦ ground (arith, copied)
          | inr (x, e') ↦ ground (arith, copied)
        ]
      ]
