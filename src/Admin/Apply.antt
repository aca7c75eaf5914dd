-- ===== src/Admin/Apply.antt =====
-- apps/admin/src/main.rs: `render_and_apply_singbox_config`.
pub mod Laws
pub mod Live
pub mod Loaded
use vpn.Prelude.{
  ℕ, String, string_Eq, ◌==◌, Bool, true, false, not, ◌&&◌, if◌then◌else◌, List, [], ◌∷◌, list_Eq,
  nat_Eq, Option, none, some, Result, ok, err, lookup,
}
use vpn.CompatConfig.Model.{
  CompatUser, CompatError, is_active, RealityServerParams, Hysteria2ServerParams,
}
use vpn.CompatConfig.Disk.{Disk, Host, and_then, copy, write_file_mode, rename}
use vpn.CompatConfig.Server.{render_singbox_server_config}
use vpn.CompatConfig.Server.Apply.{apply_config_atomically}
use vpn.CompatConfig.Server.Json.{Value}
use vpn.Crypto.Hex.{trim}
use vpn.Admin.{
  Machine, World, AdminError, apply, no_keyset, no_binary, no_service, no_fingerprint, stamp_failed,
  reload_failed, handshake_failed, RealitySelfTestOutcome, handshake_rejected,
}
use vpn.Admin.Service.{is_available, is_unit_installed, is_active_unit, reload_and_verify}

pub data HandshakeVerification : Type 0 where
  ran : RealitySelfTestOutcome → HandshakeVerification
  not_run : HandshakeVerification

-- the first user that may connect
unfoldable pub test_user : List CompatUser → ℕ → Option CompatUser
test_user [] now = none
test_user (u ∷ us) now = let rest = test_user us now in if is_active u now then some u else rest

unfoldable pub is_rejected : HandshakeVerification → Bool
is_rejected (ran handshake_rejected) = true
is_rejected (ran _) = false
is_rejected not_run = false

module _ (m : Machine) where
  unfoldable pub verify_reality_handshake_or_warn :
      List CompatUser → RealityServerParams → HandshakeVerification
  unfolding test_user
  verify_reality_handshake_or_warn users reality =
      if not m.singbox_binary_exists then not_run else elim (test_user users m.now) [
        | none ↦ not_run
        | some u ↦ elim (m.run_reality_client_selftest reality u) [
          | some outcome ↦ ran outcome
          | none ↦ not_run
        ]
      ]

  unfoldable pub commit_applied_config_stamp :
      Host → List ℕ → Disk → Result CompatError (Unit {0}) × Disk
  commit_applied_config_stamp h fingerprint d =
      and_then (write_file_mode h m.stamp_tmp fingerprint 384 d) (rename h m.stamp_tmp m.stamp_file)

  -- the bytes of a file are text that is, trimmed, the fingerprint
  unfoldable pub stamp_matches : List ℕ → Disk → Bool
  unfolding trim
  stamp_matches fingerprint d = elim (lookup m.stamp_file d) [
    | some stamp ↦ trim stamp.bytes == fingerprint
    | none ↦ false
  ]

  unfoldable pub target_matches : Value → Disk → Bool
  target_matches doc d = elim (lookup m.singbox_config_file d) [
    | some live ↦ m.parses_to live.bytes doc
    | none ↦ false
  ]

  -- `mgr.is_available() && mgr.is_unit_installed()`
  unfoldable pub service_available : World → Bool × World
  service_available w =
      let (available, w') = is_available m w in
      if available then is_unit_installed m w' else (false, w')

  -- the file and its stamp are those of the document, and the unit is up
  unfoldable pub already_current : Value → List ℕ → Bool → World → Bool × World
  unfolding target_matches stamp_matches
  already_current doc fingerprint service w =
      if target_matches doc w.disk && stamp_matches fingerprint w.disk && service
      then is_active_unit m w
      else (false, w)

  -- After a configuration that does not work: the backup is copied over it, and loaded.
  unfoldable pub recover : Host → World → Bool × World
  unfolding copy
  recover h w =
      let target = m.singbox_config_file in
      let backup = h.backup_of target in
      elim (lookup backup w.disk) [
        | none ↦ (false, w)
        | some _ ↦
            let (copied, d) = copy h backup target w.disk in
            let w1 = record w { disk = d } in
            elim copied [
              | err _ ↦ (false, w1)
              | ok _ ↦
                  let (reloaded, w2) = reload_and_verify m w1 in
                  elim reloaded [ err _ ↦ (false, w2) | ok _ ↦ (true, w2) ]
            ]
      ]

  unfoldable pub commit_stamp : Host → List ℕ → World → Result AdminError Bool × World
  unfolding commit_applied_config_stamp
  commit_stamp h fingerprint w =
      let (committed, d) = commit_applied_config_stamp h fingerprint w.disk in
      let w1 = record w { disk = d } in
      elim committed [ err _ ↦ (err stamp_failed, w1) | ok _ ↦ (ok true, w1) ]

  -- the new configuration is loaded, tried, and stamped
  unfoldable pub go_live :
      Host → List CompatUser → RealityServerParams → List ℕ → World → Result AdminError Bool × World
  unfolding recover commit_stamp is_rejected
  go_live h users reality fingerprint w =
      let (reloaded, w1) = reload_and_verify m w in
      elim reloaded [
        | err _ ↦ let (recovered, w2) = recover h w1 in (err (reload_failed recovered), w2)
        | ok _ ↦
            if is_rejected (verify_reality_handshake_or_warn users reality)
            then (let (recovered, w2) = recover h w1 in (err (handshake_failed recovered), w2))
            else commit_stamp h fingerprint w1
      ]

  unfoldable pub apply_and_reload :
      Host
      → List CompatUser
      → RealityServerParams
      → Value
      → List ℕ
      → World
      → Result AdminError Bool × World
  apply_and_reload h users reality doc fingerprint w =
      let (applied, d) = apply_config_atomically h m.box doc m.singbox_config_file w.disk in
      let w1 = record w { disk = d } in
      elim applied [
        | err e ↦ (err (apply e), w1)
        | ok _ ↦
            let (available, w2) = is_available m w1 in
            if not available
            then (ok false, w2)
            else let (installed, w3) = is_unit_installed m w2 in
              if not installed then (ok false, w3) else go_live h users reality fingerprint w3
      ]

  unfoldable pub apply_document :
      Host
      → List CompatUser
      → RealityServerParams
      → Value
      → List ℕ
      → Bool
      → World
      → Result AdminError Bool × World
  unfolding service_available already_current
  apply_document h users reality doc fingerprint must w =
      let (service, w1) = service_available w in
      if must && not service
      then (err no_service, w1)
      else let (current, w2) = already_current doc fingerprint service w1 in
        if current then (ok true, w2) else apply_and_reload h users reality doc fingerprint w2

  abbrev pub document : List CompatUser → RealityServerParams → Value
  document users reality = render_singbox_server_config users reality m.hysteria m.ports m.now

  unfoldable pub render_and_apply_singbox_config :
      Host → List CompatUser → Bool → World → Result AdminError Bool × World
  render_and_apply_singbox_config h users require_live_apply w =
      let must = require_live_apply && not m.offline_mutation_allowed in
      elim m.reality [
        | none ↦ if must then (err no_keyset, w) else (ok false, w)
        | some reality ↦
            let doc = document users reality in
            elim (m.fingerprint doc) [
              | none ↦ (err no_fingerprint, w)
              | some fingerprint ↦
                  if not m.singbox_binary_exists
                  then if must then (err no_binary, w) else (ok false, w)
                  else apply_document h users reality doc fingerprint must w
            ]
      ]
