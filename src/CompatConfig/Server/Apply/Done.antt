-- ===== src/CompatConfig/Server/Apply/Done.antt =====
-- What replacing a configuration leaves (crates/compat-config/src/server.rs).
use vpn.Prelude.{
  ℕ, ◌≡◌, inl, inr, refl, sym, ap, ◌∙◌, String, string_Eq, List, some, ok, lookup, arith,
  Result-cases, Option-cases,
}
use vpn.CompatConfig.Disk.{
  File, Disk, Host, opened, write_file_mode, preserve_ownership_before_rename, rename,
}
use vpn.CompatConfig.Disk.Atomic.{
  write_file_mode-other, write_file_mode-written, preserve-other, rename-other, rename-moved,
  preserve-owned, preserve-kept,
}
use vpn.CompatConfig.Disk.Backup.{AreApart}
use vpn.CompatConfig.Server.Json.{Value}
use vpn.CompatConfig.Server.Apply.{
  SingBox, validate, keep_backup, swap_in, check_and_swap, apply_config_atomically,
}
use vpn.CompatConfig.Server.Apply.Steps.{keep_backup-other, keep_backup-kept}

module _ (h : Host) (box : SingBox) where
  -- What a configuration that was put in place has left.
  pub record IsApplied (c : Value) (target : String) (before after : Disk) : Type 0 where
    pub live : File
    pub is_live : lookup target after ≡ some live
    pub rendered : box.to_vec_pretty c ≡ some live.bytes
    pub checked : box.check live.bytes ≡ ok tt
    pub backup :
        (old : File)
        → lookup target before ≡ some old
        → (b : File) × (lookup (h.backup_of target) after ≡ some b)
          × (b.bytes ≡ old.bytes)
          × (b.mode ≡ 416)
          × (live.uid ≡ old.uid)
          × (live.gid ≡ old.gid)

  swap_in_steps :
      (tmp target : String) (d : Disk)
      → (swap_in h box tmp target d).0 ≡ ok tt
      → let k = keep_backup h box target d in
        let o = preserve_ownership_before_rename h tmp target k.1 in
        (k.0 ≡ ok tt)
        × (o.0 ≡ ok tt)
        × ((rename h tmp target o.1).0 ≡ ok tt)
        × ((swap_in h box tmp target d).1 ≡ (rename h tmp target o.1).1)
  unfolding swap_in
  swap_in_steps tmp target d done = (ground arith, ground arith, ground arith, ground arith)

  apply_steps :
      (c : Value) (target : String) (d : Disk)
      → (apply_config_atomically h box c target d).0 ≡ ok tt
      → let tmp = h.tmp_of target in
        (bytes : List ℕ) × (box.to_vec_pretty c ≡ some bytes)
        × ((write_file_mode h tmp bytes 416 d).0 ≡ ok tt)
        × (validate h box tmp (write_file_mode h tmp bytes 416 d).1 ≡ ok tt)
        × (apply_config_atomically h box c target d
            ≡ swap_in h box tmp target (write_file_mode h tmp bytes 416 d).1)
  unfolding apply_config_atomically check_and_swap
  apply_steps c target d done = elim (Option-cases (box.to_vec_pretty c)) [
    | inl e ↦ absurd (ground arith)
    | inr (bytes, e) ↦
        let w = write_file_mode h (h.tmp_of target) bytes 416 d in
        elim (Result-cases (validate h box (h.tmp_of target) w.1)) [
          | inl (_, v) ↦ (bytes, e, ground arith, ground arith, ground arith)
          | inr (y, v) ↦ absurd (ground arith)
        ]
  ]

  validated :
      (path : String) (d : Disk) (file : File)
      → lookup path d ≡ some file
      → validate h box path d ≡ ok tt
      → box.check file.bytes ≡ ok tt
  unfolding validate
  validated path d file e passed = ground arith

  -- The temporary file comes through the swap with its bytes, and the owner of the one before.
  swap_in_done :
      (target : String) (d : Disk) (file : File)
      → AreApart h target
      → lookup (h.tmp_of target) d ≡ some file
      → (swap_in h box (h.tmp_of target) target d).0 ≡ ok tt
      → let after = (swap_in h box (h.tmp_of target) target d).1 in
        (live : File) × (lookup target after ≡ some live)
        × (live.bytes ≡ file.bytes)
        × ((old : File)
            → lookup target d ≡ some old
            → (b : File) × (lookup (h.backup_of target) after ≡ some b)
              × (b.bytes ≡ old.bytes)
              × (b.mode ≡ 416)
              × (live.uid ≡ old.uid)
              × (live.gid ≡ old.gid))
  swap_in_done target d file apart there done =
      let tmp = h.tmp_of target in
      let k = keep_backup h box target d in
      let o = preserve_ownership_before_rename h tmp target k.1 in
      let (backed, owned, renamed, same) = swap_in_steps tmp target d done in
      let tmp_kept = keep_backup-other h box target tmp d (λ q. apart.siblings (sym q)) ∙ there in
      let live_kept = keep_backup-other h box target target d apart.backup in
      elim (Option-cases (lookup target d)) [
        | inr (old, e) ↦
            let moved = preserve-owned h tmp target k.1 tmp_kept (live_kept ∙ e) owned in
            let (b, at_b, bytes_b, mode_b) = keep_backup-kept h box target d old e backed in
            let at_end =
              rename-other h tmp target (h.backup_of target) o.1 apart.siblings
                (λ q. apart.backup (sym q))
              ∙ preserve-other h tmp target (h.backup_of target) k.1 apart.siblings
              ∙ at_b in
            (
              record file { uid = old.uid; gid = old.gid },
              rw same (rename-moved h tmp target o.1 moved renamed),
              refl,
              λ old' e'. (b, rw same at_end, cc, mode_b, cc, cc),
            )
        | inl e ↦
            let (g, moved) = preserve-kept h tmp target k.1 tmp_kept (live_kept ∙ e) owned in
            (
              record file { gid = g },
              rw same (rename-moved h tmp target o.1 moved renamed),
              refl,
              λ old' e'. absurd (cc),
            )
      ]

  -- A configuration that was put in place passed the check, byte for byte; the one before is in the
  -- backup, in mode 0640, and its owner and group are those of the new one.
  pub apply_config_done :
      (c : Value) (target : String) (d : Disk)
      → AreApart h target
      → (apply_config_atomically h box c target d).0 ≡ ok tt
      → IsApplied c target d (apply_config_atomically h box c target d).1
  apply_config_done c target d apart done =
      let (bytes, rendered, wrote, passed, same) = apply_steps c target d done in
      let tmp = h.tmp_of target in
      let w = write_file_mode h tmp bytes 416 d in
      let file = record (opened h tmp 416 d) { bytes = bytes } in
      let there = write_file_mode-written h tmp bytes 416 d wrote in
      let (live, at_live, same_bytes, old_kept) =
        swap_in_done target w.1 file apart there (ap (λ r. r.0) (sym same) ∙ done) in
      rw same (record {
        live = live;
        is_live = at_live;
        rendered = rendered ∙ ap some (sym same_bytes);
        checked = rw same_bytes (validated tmp w.1 file there passed);
        backup =
            λ old e. old_kept old (write_file_mode-other h tmp target bytes 416 d apart.tmp ∙ e);
      })
