-- ===== src/Admin/Users/Laws.antt =====
-- A change of the users is made whole or not at all (apps/admin/src/main.rs).
use vpn.Prelude.{
  ◌≡◌, ◌≢◌, inl, inr, sym, ap, ◌∙◌, string_Eq, Bool, true, List, some, Result, ok, err, lookup,
  arith, Result-cases,
}
use vpn.CompatConfig.Model.{CompatUser, RealityServerParams, UsersJsonLaws}
use vpn.CompatConfig.Disk.Backup.{AreApart}
use vpn.CompatConfig.Users.{load_users, save_users_atomic}
use vpn.CompatConfig.Users.Laws.{save_failed, load-save_users}
use vpn.Admin.{Machine, World, AdminError}
use vpn.Admin.Apply.{render_and_apply_singbox_config}
use vpn.Admin.Apply.Laws.{IsElsewhere, render_and_apply-other}
use vpn.Admin.Apply.Live.{IsLive, render_and_apply-IsLive}
use vpn.Admin.Users.{save_or_roll_back, apply_users_and_save, change_and_apply}

-- The names that a command writes to are apart, and the store is none of the configuration's files.
pub record IsLaidOut (m : Machine) : Type 0 where
  pub store_tmp : (m.host 2).tmp_of m.users_file ≢ m.users_file
  pub store_applied : IsElsewhere m (m.host 1) m.users_file
  pub store_rolled_back : IsElsewhere m (m.host 3) m.users_file
  pub config : AreApart (m.host 1) m.singbox_config_file
  -- a file that is there can be read
  pub readable : (m.host 2).read_ok 0 ≡ true

module _ (m : Machine) (laid_out : IsLaidOut m) where
  save_or_roll_back_failed :
      (previous users : List CompatUser) (live : Bool) (w : World) (x : AdminError)
      → (save_or_roll_back m previous users live w).0 ≡ err x
      → lookup m.users_file (save_or_roll_back m previous users live w).1.disk
        ≡ lookup m.users_file w.disk
  unfolding save_or_roll_back
  save_or_roll_back_failed previous users live w x failed =
      let h = m.host 2 in
      let s = save_users_atomic h m.users_json m.users_file users w.disk in
      let w1 = record w { disk = s.1 } in
      elim (Result-cases s.0) [
        | inl (_, e) ↦ absurd (ground arith)
        | inr (y, e) ↦ ground (
          arith,
          save_failed h m.users_json m.users_file users w.disk y laid_out.store_tmp e,
          render_and_apply-other m (m.host 3) m.users_file laid_out.store_rolled_back previous true
              w1,
        )
      ]

  apply_users_and_save_failed :
      (previous users : List CompatUser) (w : World) (x : AdminError)
      → (apply_users_and_save m previous users w).0 ≡ err x
      → lookup m.users_file (apply_users_and_save m previous users w).1.disk
        ≡ lookup m.users_file w.disk
  unfolding apply_users_and_save
  apply_users_and_save_failed previous users w x failed =
      let a = render_and_apply_singbox_config m (m.host 1) users true w in
      let kept =
        render_and_apply-other m (m.host 1) m.users_file laid_out.store_applied users true w in
      elim (Result-cases a.0) [
        | inr (y, e) ↦ ground (arith, kept)
        | inl (live, e) ↦ ground (arith, kept, save_or_roll_back_failed previous users live a.1 x)
      ]

  -- A command that fails leaves the users' file exactly as it was, whatever failed: loading, finding
  -- the user, the configuration, the reload, the test of a handshake, or the save itself.
  pub change_and_apply_failed :
      (change : List CompatUser → Result AdminError (List CompatUser)) (w : World) (x : AdminError)
      → (change_and_apply m change w).0 ≡ err x
      → lookup m.users_file (change_and_apply m change w).1.disk ≡ lookup m.users_file w.disk
  unfolding change_and_apply
  change_and_apply_failed change w x failed =
      elim (Result-cases (load_users (m.host 0) m.users_json m.users_file w.disk)) [
        | inr (y, e) ↦ ground arith
        | inl (users, e) ↦ elim (Result-cases (change users)) [
          | inr (y, e') ↦ ground arith
          | inl (users', e') ↦ ground (arith, apply_users_and_save_failed users users' w x)
        ]
      ]

  -- What a command that is done has changed.
  pub record IsDone (change : List CompatUser → Result AdminError (List CompatUser)) (live : Bool)
      (before after : World) : Type 0 where
    pub previous : List CompatUser
    pub users : List CompatUser
    pub was_stored : load_users (m.host 0) m.users_json m.users_file before.disk ≡ ok previous
    pub changed : change previous ≡ ok users
    pub is_stored : load_users (m.host 2) m.users_json m.users_file after.disk ≡ ok users
    -- the configuration as the server had it when the store was written
    pub applied : World
    pub same_loaded : after.loaded ≡ applied.loaded
    pub is_live :
        live ≡ true
        → (reality : RealityServerParams) → m.reality ≡ some reality
        → IsLive m users reality before applied

module _ (m : Machine) (laid_out : IsLaidOut m) (laws : UsersJsonLaws m.users_json) where
  save_or_roll_back_done :
      (previous users : List CompatUser) (went live : Bool) (w : World)
      → (save_or_roll_back m previous users went w).0 ≡ ok live
      → let after = (save_or_roll_back m previous users went w).1 in
        (went ≡ live)
        × (load_users (m.host 2) m.users_json m.users_file after.disk ≡ ok users)
        × (after.loaded ≡ w.loaded)
  unfolding save_or_roll_back
  save_or_roll_back_done previous users went live w done =
      let h = m.host 2 in
      let s = save_users_atomic h m.users_json m.users_file users w.disk in
      elim (Result-cases s.0) [
        | inr (y, e) ↦ absurd (ground arith)
        | inl (_, e) ↦
            let (stored, _, _) =
              load-save_users h m.users_json laws m.users_file users w.disk laid_out.store_tmp
                laid_out.readable (ground arith) in
            (ground arith, ground (arith, stored), ground arith)
      ]

  apply_users_and_save_steps :
      (previous users : List CompatUser) (w : World) (live : Bool)
      → (apply_users_and_save m previous users w).0 ≡ ok live
      → let a = render_and_apply_singbox_config m (m.host 1) users true w in
        (went : Bool) × (a.0 ≡ ok went)
        × (apply_users_and_save m previous users w ≡ save_or_roll_back m previous users went a.1)
  unfolding apply_users_and_save
  apply_users_and_save_steps previous users w live done =
      elim (Result-cases (render_and_apply_singbox_config m (m.host 1) users true w).0) [
        | inr (y, e) ↦ absurd (ground arith)
        | inl (went, e) ↦ (went, e, ground arith)
      ]

  change_and_apply_steps :
      (change : List CompatUser → Result AdminError (List CompatUser)) (w : World) (live : Bool)
      → (change_and_apply m change w).0 ≡ ok live
      → (previous users : List CompatUser) × (load_users (m.host 0) m.users_json m.users_file w.disk
          ≡ ok previous)
        × (change previous ≡ ok users)
        × (change_and_apply m change w ≡ apply_users_and_save m previous users w)
  unfolding change_and_apply
  change_and_apply_steps change w live done =
      elim (Result-cases (load_users (m.host 0) m.users_json m.users_file w.disk)) [
        | inr (y, e) ↦ absurd (ground arith)
        | inl (previous, e) ↦ elim (Result-cases (change previous)) [
          | inr (y, e') ↦ absurd (ground arith)
          | inl (users, e') ↦ (previous, users, e, e', ground arith)
        ]
      ]

  -- A command that is done has stored the changed users, and if it reports the change live, their
  -- configuration was made live before the store was written.
  pub change_and_apply_done :
      (change : List CompatUser → Result AdminError (List CompatUser)) (w : World) (live : Bool)
      → (change_and_apply m change w).0 ≡ ok live
      → IsDone m laid_out change live w (change_and_apply m change w).1
  change_and_apply_done change w live done =
      let (previous, users, was_stored, changed, same) =
        change_and_apply_steps change w live done in
      let a = render_and_apply_singbox_config m (m.host 1) users true w in
      let (went, applied, same') =
        apply_users_and_save_steps previous users w live (ap (λ r. r.0) (sym same) ∙ done) in
      let (is_went, stored, loaded) =
        save_or_roll_back_done previous users went live a.1
          (ap (λ r. r.0) (sym same') ∙ ap (λ r. r.0) (sym same) ∙ done) in
      rw (same, same')
        (record {
          previous = previous;
          users = users;
          was_stored = was_stored;
          changed = changed;
          is_stored = stored;
          applied = a.1;
          same_loaded = loaded;
          is_live = λ is_true reality keyset.
              render_and_apply-IsLive m (m.host 1) users reality true w laid_out.config keyset
                (applied ∙ ap ok (is_went ∙ is_true));
        })
