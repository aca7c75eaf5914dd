-- ===== src/Examples/Lock.antt =====
-- Theorems on commands that run side by side (apps/admin/src/main.rs, lock.rs), for one that removes a user
-- and one that switches another off.
use vpn.Prelude.{ℕ, ◌≡◌, refl, string_Eq, true, false, List, [], ◌∷◌, ok_or, zero, suc}
use vpn.CompatConfig.Users.{load_users, save_users_atomic}
use vpn.CompatConfig.Disk.{read}
use vpn.CompatConfig.Server.Apply.{apply_config_atomically}
use vpn.Admin.Apply.{render_and_apply_singbox_config}
use vpn.Admin.{Machine, no_such_user}
use vpn.Admin.Users.{remove_user, change_user, found_user, apply_users_and_save}
use vpn.Admin.Lock.{
  Commands, user, remove, disable, command_mutates_state, acquire_state_lock, step_process,
  run_schedule, at_start,
}
use vpn.Admin.Lock.Serial.{times, returned}
use vpn.Admin.Lock.Users.{
  Change, changes_users, change_program, apply_loaded, change_in_order, programs,
  concurrent_user_commands,
}
use vpn.Examples.Server.{alice}
use vpn.Examples.Admin.{machine, world}

abbrev command : ℕ → Commands
command zero = user (remove "user_b")
command (suc n) = user (disable "user_a")

abbrev change : ℕ → Change
change zero = λ users. ok_or (remove_user "user_b" users) no_such_user
change (suc n) = found_user "user_a" (λ u. record u { enabled = false })

abbrev machines : ℕ → Machine
machines zero = machine (alice ∷ [])
machines (suc n) = machine (record alice { enabled = false } ∷ [])

users_only : (i : ℕ) → changes_users (command i) ≡ true
users_only zero = refl
users_only (suc n) = refl

-- the second waits twice, and goes on as soon as the first has returned
abbrev schedule : List ℕ
schedule = 0 ∷ 1 ∷ 0 ∷ 1 ∷ 0 ∷ 0 ∷ 1 ∷ 1 ∷ 1 ∷ 1 ∷ []

concurrent_user_commands_example :
    let s = run_schedule command (programs machines change) schedule (at_start world) in
    (order : List ℕ) × (s.world ≡ change_in_order machines change order world)
    × ((j : ℕ) → times j order ≡ returned (command j) (s.process j))
unfolding run_schedule step_process acquire_state_lock command_mutates_state change_program
    apply_loaded load_users read remove_user change_user apply_users_and_save
    render_and_apply_singbox_config vpn.Admin.Apply.apply_document vpn.Admin.Apply.apply_and_reload
    vpn.Admin.Apply.go_live vpn.Admin.Service.reload_and_verify vpn.Admin.Service.reload_or_restart
    vpn.Admin.Service.is_available vpn.Admin.Service.is_unit_installed
    vpn.Admin.Service.is_active_unit vpn.Admin.Apply.verify_reality_handshake_or_warn
    apply_config_atomically vpn.CompatConfig.Disk.create_parent
    vpn.CompatConfig.Disk.write_file_mode vpn.CompatConfig.Disk.preserve_ownership_before_rename
    vpn.CompatConfig.Disk.rename vpn.CompatConfig.Model.is_active save_users_atomic
    vpn.CompatConfig.Disk.replace
concurrent_user_commands_example =
    concurrent_user_commands machines change command users_only world schedule refl
