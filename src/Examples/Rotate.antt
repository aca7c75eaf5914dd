-- ===== src/Examples/Rotate.antt =====
-- Theorems on the rotation of the REALITY keys (apps/admin/src/main.rs), on the small machine of the
-- user commands.
use vpn.Prelude.{
  ◌≡◌, ◌≢◌, refl, String, string_Eq, true, false, [], ◌∷◌, some, err, if◌then◌else◌, arith, ◌==◌,
}
use vpn.CompatConfig.Disk.{Disk, File, Host}
use vpn.Admin.{Machine, World, handshake_rejected}
use vpn.Admin.Rotate.{KeyFile, Names, stale_backup}
use vpn.Admin.Rotate.Rollback.{AreSeparate, AreRestored}
use vpn.Admin.Rotate.Command.{
  Candidate, Rotation, rotation_failed, backup, key_files, cmd_reality_rotate,
}
use vpn.Admin.Rotate.Command.Failed.{IsOutside, IsRotatable}
use vpn.Admin.Rotate.Command.Restored.{cmd_reality_rotate-AreRestored}
use vpn.Admin.Rotate.Command.Refused.{AreSame, cmd_reality_rotate-AreSame}
use vpn.Admin.Rotate.Files.{All}
use vpn.Examples.Server.{config}
use vpn.Examples.Admin.{machine, world}

abbrev candidate : Candidate
candidate = record { private_key = "p2"; public_key = "q2"; short_id = "s2" }

abbrev names : Names
names = record {
  bak = λ p.
      if p == "private"
      then "private.bak"
      else if p == "public"
      then "public.bak"
      else "short_id.bak";
  rotate_tmp = λ p.
      if p == "private"
      then "private.tmp"
      else if p == "public"
      then "public.tmp"
      else "short_id.tmp";
}

abbrev rotation : Rotation
rotation = record {
  names = names;
  private_key_file = "private";
  public_key_file = "public";
  short_id_file = "short_id";
  staged_file = "staged";
  handshake_server = "h";
  handshake_port = 443;
  as_bytes = λ s. if s == "p2" then 2 ∷ [] else 3 ∷ [];
  generated = some candidate;
}

-- a machine on which the new keys are rejected
abbrev rejecting : Machine
rejecting = record (machine []) { run_reality_client_selftest = λ r u. some handshake_rejected }

-- there is no short id yet
abbrev with_keys : World
with_keys = record world {
  disk =
      ("private", record { bytes = 1 ∷ []; mode = 384; uid = 0; gid = 5 })
      ∷ ("public", record { bytes = 7 ∷ []; mode = 416; uid = 0; gid = 9 })
      ∷ world.disk;
}

abbrev with_stale_backup : World
with_stale_backup = record with_keys {
  disk = ("public.bak", record { bytes = []; mode = 384; uid = 0; gid = 0 }) ∷ with_keys.disk;
}

rejected : (cmd_reality_rotate rejecting rotation with_keys).0 ≡ err (rotation_failed true)
unfolding cmd_reality_rotate vpn.CompatConfig.Users.load_users vpn.CompatConfig.Disk.read
    vpn.CompatConfig.Disk.create_parent vpn.CompatConfig.Disk.write_file_mode
    vpn.Admin.Service.is_available vpn.Admin.Service.is_unit_installed vpn.Admin.Rotate.backup_all
    vpn.Admin.Rotate.install_all vpn.CompatConfig.Disk.preserve_ownership_before_rename
    vpn.CompatConfig.Disk.rename vpn.CompatConfig.Server.Apply.apply_config_atomically
    vpn.Admin.Service.reload_and_verify vpn.Admin.Service.reload_or_restart
    vpn.Admin.Service.is_active_unit vpn.Admin.Apply.is_rejected
    vpn.Admin.Apply.verify_reality_handshake_or_warn vpn.CompatConfig.Model.is_active
    vpn.Admin.Rotate.roll_back_files
rejected = refl

stale : (cmd_reality_rotate rejecting rotation with_stale_backup).0 ≡ err (backup stale_backup)
unfolding cmd_reality_rotate vpn.CompatConfig.Users.load_users vpn.CompatConfig.Disk.read
    vpn.CompatConfig.Disk.create_parent vpn.CompatConfig.Disk.write_file_mode
    vpn.Admin.Service.is_available vpn.Admin.Service.is_unit_installed vpn.Admin.Rotate.backup_all
    vpn.CompatConfig.Disk.preserve_ownership_before_rename vpn.CompatConfig.Disk.rename
    vpn.CompatConfig.Server.Apply.apply_config_atomically vpn.Admin.Service.reload_and_verify
    vpn.Admin.Service.reload_or_restart
stale = refl

distinct : {p q : String} → string_Eq.beq p q ≡ false → p ≢ q
distinct {p} {q} e same = ground (arith, string_Eq.beq_iff p q)

-- the path of a key file and the backup of another one have names of their own
separate :
    {k j : KeyFile}
    → string_Eq.beq k.path j.path ≡ false
    → string_Eq.beq (names.bak k.path) (names.bak j.path) ≡ false
    → string_Eq.beq (names.bak k.path) j.path ≡ false
    → string_Eq.beq k.path (names.bak j.path) ≡ false
    → AreSeparate names k j
separate a b c d = record {
  paths = distinct a;
  baks = distinct b;
  bak_path = distinct c;
  path_bak = distinct d;
}

path-IsOutside :
    {q : String}
    → All
        (λ k. (names.rotate_tmp k.path ≢ q) × (k.path ≢ q))
        (key_files rejecting rotation candidate)
    → string_Eq.beq config q ≡ false
    → string_Eq.beq "config.json.tmp.1" q ≡ false
    → string_Eq.beq "config.json.bak" q ≡ false
    → IsOutside rejecting rotation (key_files rejecting rotation candidate) q
path-IsOutside ks a b c = record {
  keys = ks;
  config = distinct a;
  config_tmp = distinct b;
  config_backup = distinct c;
}

rotatable : IsRotatable rejecting rotation (key_files rejecting rotation candidate)
rotatable = record {
  separate = (
    distinct refl,
    (separate refl refl refl refl, (separate refl refl refl refl, tt)),
    (distinct refl, (separate refl refl refl refl, tt), (distinct refl, tt, tt)),
  );
  baks = (
    path-IsOutside
        (
          (distinct refl, distinct refl),
          ((distinct refl, distinct refl), ((distinct refl, distinct refl), tt)),
        )
        refl refl refl,
    (
      path-IsOutside
          (
            (distinct refl, distinct refl),
            ((distinct refl, distinct refl), ((distinct refl, distinct refl), tt)),
          )
          refl refl refl,
      (
        path-IsOutside
            (
              (distinct refl, distinct refl),
              ((distinct refl, distinct refl), ((distinct refl, distinct refl), tt)),
            )
            refl refl refl,
        tt,
      ),
    ),
  );
  config = (distinct refl, (distinct refl, (distinct refl, tt)));
}

cmd_reality_rotate-AreRestored_example :
    AreRestored
      (rejecting.host 1)
      names
      (key_files rejecting rotation candidate)
      with_keys.disk
      (cmd_reality_rotate rejecting rotation with_keys).1.disk
cmd_reality_rotate-AreRestored_example =
    cmd_reality_rotate-AreRestored rejecting rotation candidate with_keys refl rotatable
      (distinct refl, (distinct refl, (distinct refl, tt))) rejected

cmd_reality_rotate-AreSame_example :
    AreSame
      (key_files rejecting rotation candidate)
      with_stale_backup.disk
      (cmd_reality_rotate rejecting rotation with_stale_backup).1.disk
cmd_reality_rotate-AreSame_example =
    cmd_reality_rotate-AreSame rejecting rotation candidate with_stale_backup (backup stale_backup)
      (λ x e. cc) rotatable.separate (distinct refl, (distinct refl, (distinct refl, tt)))
      (λ b e. cc) stale
