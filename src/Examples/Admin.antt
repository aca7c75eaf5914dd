-- ===== src/Examples/Admin.antt =====
-- Theorems on the user commands (apps/admin/src/main.rs), for two users on a small machine.
use mathlib.Core.List.Memᴰ.{not-nil}
use vpn.Prelude.{
  ◌*◌, ◌≡◌, ◌≢◌, refl, String, string_Eq, true, false, List, [], ◌∷◌, none, some, ok, err, Result,
  subst, ok-injective, ok_or, lookup, if◌then◌else◌, list_beq, nat_eq, nat_Eq, arith,
}
use vpn.CompatConfig.Model.{
  CompatUser, UsersFile, UsersJson, UsersJsonLaws, RealityServerParams, Hysteria2ServerParams,
  CompatError, config_validation_failed,
}
use vpn.CompatConfig.Disk.{Disk, Host}
use vpn.CompatConfig.Server.Apply.{apply_config_atomically}
use vpn.Admin.{Machine, World, pass, apply, no_such_user}
use vpn.Admin.Service.{reload_and_verify, out_of_fuel, reload_and_verify_ends}
use vpn.Admin.Apply.{render_and_apply_singbox_config, target_matches, stamp_matches}
use vpn.Admin.Apply.Laws.{IsElsewhere}
use vpn.Admin.Users.{
  remove_user, found_user, change_and_apply, cmd_user_remove, cmd_user_set_enabled,
}
use vpn.Admin.Users.Laws.{IsLaidOut, change_and_apply_failed}
use vpn.Admin.Apply.Loaded.{StampIsHonest}
use vpn.Admin.Users.Revoked.{IsRevoked, IsUnique, disabled, cmd_user_remove_revokes}
use vpn.Examples.Users.{host}
use vpn.Examples.UserCodecs.{users_codec, users_codec-laws}
use vpn.Examples.Server.{
  alice, bob, users, params, hysteria2, ports, box, strict, config_host, config, configured,
  config_apart,
}

-- the store of both users in the old shape; what is written is a store of `after`
abbrev codec : List CompatUser → UsersJson
codec after = record (users_codec (record { schema_version = 1; users = after })) {
  list_from_slice = λ bytes. if list_beq bytes (8 ∷ []) then some users else none;
}

codec-laws : (after : List CompatUser) → UsersJsonLaws (codec after)
codec-laws after = record {
  from_slice-to_vec =
      (users_codec-laws (record { schema_version = 1; users = after })).from_slice-to_vec;
}

-- a machine on which systemd carries out every command
abbrev pub machine : List CompatUser → Machine
machine after = record {
  host = λ phase. if nat_eq phase 2 then host else config_host;
  box = box;
  users_json = codec after;
  spawn = λ n. some (record { success = true; loaded = true });
  settle = 300;
  elapsed = λ start round. round * 300;
  offline_mutation_allowed = false;
  singbox_binary_exists = true;
  now = 9;
  reality = some params;
  hysteria = hysteria2;
  ports = ports;
  users_file = "users.json";
  singbox_config_file = config;
  stamp_file = "config.applied.sha256";
  stamp_tmp = "config.applied.tmp.1";
  parses_to = λ bytes v. false;
  fingerprint = λ v. some (6 ∷ []);
  run_reality_client_selftest = λ r u. some pass;
}

abbrev pub world : World
world = record {
  disk = ("users.json", record { bytes = 8 ∷ []; mode = 416; uid = 0; gid = 9 }) ∷ configured;
  loaded = some (4 ∷ []);
  calls = 0;
}

elsewhere : (after : List CompatUser) → IsElsewhere (machine after) config_host "users.json"
elsewhere after = record {
  config = λ h. cc;
  config_tmp = λ h. cc;
  config_backup = λ h. cc;
  stamp = λ h. cc;
  stamp_tmp = λ h. cc;
}

laid_out : (after : List CompatUser) → IsLaidOut (machine after)
laid_out after = record {
  store_tmp = λ h. cc;
  store_applied = elsewhere after;
  store_rolled_back = elsewhere after;
  config = config_apart;
  readable = refl;
}

reload_and_verify_ends_example : (reload_and_verify (machine []) world).0 ≢ err out_of_fuel
reload_and_verify_ends_example = reload_and_verify_ends (machine []) world (λ s r. omega arith)

abbrev only_alice : List CompatUser
only_alice = alice ∷ []

removed : (cmd_user_remove (machine only_alice) "user_b" world).0 ≡ ok true
unfolding cmd_user_remove vpn.CompatConfig.Users.load_users vpn.CompatConfig.Disk.read remove_user
    render_and_apply_singbox_config vpn.Admin.Apply.apply_document vpn.Admin.Apply.apply_and_reload
    vpn.Admin.Apply.go_live reload_and_verify vpn.Admin.Service.reload_or_restart
    vpn.Admin.Service.is_available vpn.Admin.Service.is_unit_installed
    vpn.Admin.Service.is_active_unit vpn.Admin.Apply.verify_reality_handshake_or_warn
    apply_config_atomically vpn.CompatConfig.Disk.create_parent
    vpn.CompatConfig.Disk.write_file_mode vpn.CompatConfig.Disk.preserve_ownership_before_rename
    vpn.CompatConfig.Disk.rename vpn.CompatConfig.Model.is_active
    vpn.CompatConfig.Users.save_users_atomic vpn.CompatConfig.Disk.replace
removed = refl

no_stamp : StampIsHonest (machine only_alice) world
unfolding stamp_matches
no_stamp doc fp file printed fits there parses = cc fits

cmd_user_remove_revokes_example :
    IsRevoked
      (machine only_alice)
      (laid_out only_alice)
      "user_b"
      params
      (λ us. ok_or (remove_user "user_b" us) no_such_user)
      world
      (cmd_user_remove (machine only_alice) "user_b" world).1
cmd_user_remove_revokes_example =
    cmd_user_remove_revokes (machine only_alice) (laid_out only_alice) (codec-laws only_alice)
      "user_b" params refl world no_stamp removed

abbrev bob_off : List CompatUser
bob_off = alice ∷ disabled bob ∷ []

differ : ◌≢◌ {A = String} "user_a" "user_b"
differ h = ground (arith, string_Eq.beq_iff "user_a" "user_b")

both-IsUnique : IsUnique "user_b" users
both-IsUnique = (λ q. absurd (differ q), (λ q v m. absurd (not-nil m), tt))

stored_users :
    (previous : List CompatUser)
    → ◌≡◌ {A = Result CompatError (List CompatUser)} (ok users) (ok previous)
    → IsUnique "user_b" previous
stored_users previous e = subst (IsUnique "user_b") (ok-injective e) both-IsUnique

switched_off : (cmd_user_set_enabled (machine bob_off) "user_b" false world).0 ≡ ok true
unfolding cmd_user_set_enabled vpn.CompatConfig.Users.load_users vpn.CompatConfig.Disk.read
    vpn.Admin.Users.change_user render_and_apply_singbox_config vpn.Admin.Apply.apply_document
    vpn.Admin.Apply.apply_and_reload vpn.Admin.Apply.go_live reload_and_verify
    vpn.Admin.Service.reload_or_restart vpn.Admin.Service.is_available
    vpn.Admin.Service.is_unit_installed vpn.Admin.Service.is_active_unit
    vpn.Admin.Apply.verify_reality_handshake_or_warn apply_config_atomically
    vpn.CompatConfig.Disk.create_parent vpn.CompatConfig.Disk.write_file_mode
    vpn.CompatConfig.Disk.preserve_ownership_before_rename vpn.CompatConfig.Disk.rename
    vpn.CompatConfig.Model.is_active vpn.CompatConfig.Users.save_users_atomic
    vpn.CompatConfig.Disk.replace
switched_off = refl

-- the machine where sing-box passes no configuration
abbrev strict_machine : Machine
strict_machine = record (machine only_alice) { box = strict }

strict_laid_out : IsLaidOut strict_machine
strict_laid_out = record {
  store_tmp = λ h. cc;
  store_applied = record {
    config = λ h. cc;
    config_tmp = λ h. cc;
    config_backup = λ h. cc;
    stamp = λ h. cc;
    stamp_tmp = λ h. cc;
  };
  store_rolled_back = record {
    config = λ h. cc;
    config_tmp = λ h. cc;
    config_backup = λ h. cc;
    stamp = λ h. cc;
    stamp_tmp = λ h. cc;
  };
  config = config_apart;
  readable = refl;
}

change_and_apply_failed_example :
    lookup "users.json"
      (change_and_apply strict_machine
        (λ us. ok_or (remove_user "user_b" us) no_such_user)
        world).1.disk
    ≡ lookup "users.json" world.disk
unfolding change_and_apply vpn.CompatConfig.Users.load_users vpn.CompatConfig.Disk.read remove_user
    render_and_apply_singbox_config vpn.Admin.Apply.apply_document vpn.Admin.Apply.apply_and_reload
    vpn.Admin.Apply.go_live reload_and_verify vpn.Admin.Service.reload_or_restart
    vpn.Admin.Service.is_available vpn.Admin.Service.is_unit_installed
    vpn.Admin.Service.is_active_unit vpn.Admin.Apply.verify_reality_handshake_or_warn
    apply_config_atomically vpn.CompatConfig.Disk.create_parent
    vpn.CompatConfig.Disk.write_file_mode vpn.CompatConfig.Disk.preserve_ownership_before_rename
    vpn.CompatConfig.Disk.rename vpn.CompatConfig.Model.is_active
    vpn.CompatConfig.Users.save_users_atomic vpn.CompatConfig.Disk.replace
change_and_apply_failed_example =
    change_and_apply_failed strict_machine strict_laid_out
      (λ us. ok_or (remove_user "user_b" us) no_such_user) world (apply config_validation_failed)
      refl
