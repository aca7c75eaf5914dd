-- ===== src/CompatConfig/Server/Apply/Laws.antt =====
-- What replacing a configuration keeps (crates/compat-config/src/server.rs).
use vpn.Prelude.{
  ◌≡◌, ◌≢◌, inl, inr, String, string_Eq, err, lookup, arith, Result-cases, Option-cases,
}
use vpn.CompatConfig.Model.{CompatError}
use vpn.CompatConfig.Disk.{Disk, Host, create_parent, write_file_mode}
use vpn.CompatConfig.Disk.Atomic.{write_file_mode-other}
use vpn.CompatConfig.Disk.Backup.{AreApart}
use vpn.CompatConfig.Server.Json.{Value}
use vpn.CompatConfig.Server.Apply.{SingBox, validate, check_and_swap, apply_config_atomically}
use vpn.CompatConfig.Server.Apply.Steps.{remove_file-other, swap_in-other, swap_in_failed}

module _ (h : Host) (box : SingBox) where
  -- A file elsewhere is not touched.
  pub apply-other :
      (c : Value) (target q : String) (d : Disk)
      → h.tmp_of target ≢ q
      → target ≢ q
      → h.backup_of target ≢ q
      → lookup q (apply_config_atomically h box c target d).1 ≡ lookup q d
  unfolding apply_config_atomically check_and_swap
  apply-other c target q d ne1 ne2 ne3 =
      let tmp = h.tmp_of target in
      elim (Result-cases (create_parent h target)) [
        | inr (x, e) ↦ ground arith
        | inl (_, e) ↦ elim (Option-cases (box.to_vec_pretty c)) [
          | inl e' ↦ ground arith
          | inr (bytes, e') ↦
              let w = write_file_mode h tmp bytes 416 d in
              let written = write_file_mode-other h tmp q bytes 416 d ne1 in
              elim (Result-cases w.0) [
                | inr (x, e'') ↦ ground (arith, written)
                | inl (_, e'') ↦ elim (Result-cases (validate h box tmp w.1)) [
                  | inr (x, v) ↦ ground (arith, written, remove_file-other h tmp q w.1 ne1)
                  | inl (_, v) ↦
                      ground (arith, written, swap_in-other h box tmp target q w.1 ne1 ne2 ne3)
                ]
              ]
        ]
      ]

  -- A configuration that is refused, or that cannot be put in place, leaves the live one exactly as
  -- it was.
  pub apply_config_failed :
      (c : Value) (target : String) (d : Disk) (x : CompatError)
      → AreApart h target
      → (apply_config_atomically h box c target d).0 ≡ err x
      → lookup target (apply_config_atomically h box c target d).1 ≡ lookup target d
  unfolding apply_config_atomically check_and_swap
  apply_config_failed c target d x apart failed =
      let tmp = h.tmp_of target in
      elim (Result-cases (create_parent h target)) [
        | inr (y, e) ↦ ground arith
        | inl (_, e) ↦ elim (Option-cases (box.to_vec_pretty c)) [
          | inl e' ↦ ground arith
          | inr (bytes, e') ↦
              let w = write_file_mode h tmp bytes 416 d in
              let written = write_file_mode-other h tmp target bytes 416 d apart.tmp in
              elim (Result-cases w.0) [
                | inr (y, e'') ↦ ground (arith, written)
                | inl (_, e'') ↦ elim (Result-cases (validate h box tmp w.1)) [
                  | inr (y, v) ↦
                      ground (arith, written, remove_file-other h tmp target w.1 apart.tmp)
                  | inl (_, v) ↦
                      ground (
                        arith,
                        written,
                        swap_in_failed h box tmp target w.1 x apart.tmp apart.backup,
                      )
                ]
              ]
        ]
      ]
