-- ===== src/Admin/Users.antt =====
-- apps/admin/src/main.rs: the user commands.
pub mod Laws
pub mod Revoked
use vpn.Prelude.{
  ℕ, zero, suc, ◌+◌, String, string_Eq, ◌==◌, Bool, true, false, not, nat_eq, if◌then◌else◌, List,
  [], ◌∷◌, ◌++◌, keep, length, Option, none, some, Result, ok, err, ok_or,
}
use vpn.CompatConfig.Model.{CompatUser}
use vpn.CompatConfig.Users.{load_users, save_users_atomic}
use vpn.Admin.{Machine, World, AdminError, load, no_such_user, save_failed, out_of_fuel}
use vpn.Admin.Apply.{render_and_apply_singbox_config}

abbrev pub is_user : String → CompatUser → Bool
is_user id u = u.id == id

-- `find_user_mut`, and a change of the user that it finds
unfoldable pub change_user :
    String → (CompatUser → CompatUser) → List CompatUser → Option (List CompatUser)
change_user id change [] = none
change_user id change (u ∷ us) =
    let rest = change_user id change us in
    if is_user id u
    then some (change u ∷ us)
    else elim rest [ none ↦ none | some us' ↦ some (u ∷ us') ]

abbrev pub found_user :
    String → (CompatUser → CompatUser) → List CompatUser → Result AdminError (List CompatUser)
found_user id change users = ok_or (change_user id change users) no_such_user

-- `users.retain(|u| u.id != id)`, which must take one out
unfoldable pub remove_user : String → List CompatUser → Option (List CompatUser)
remove_user id users =
    let kept = keep (λ u. not (is_user id u)) users in
    if nat_eq (length kept) (length users) then none else some kept

-- The first identifier that is drawn and not taken; the draws are numbered.
unfoldable pub fresh_id : ℕ → ℕ → (ℕ → String) → List CompatUser → Option String
fresh_id zero n draw users = none
fresh_id (suc fuel) n draw users =
    let rest = fresh_id fuel (n + 1) draw users in
    if nat_eq (length (keep (is_user (draw n)) users)) 0 then some (draw n) else rest

-- What is drawn and computed for a new user.
pub record Secrets : Type 0 where
  pub vless_uuid : String
  pub hysteria2_password : String
  pub subscription_token_hash_hex : String

abbrev pub new_user : String → String → Option ℕ → ℕ → Secrets → CompatUser
new_user id name expires_at now s = record {
  id = id;
  name = name;
  enabled = true;
  vless_uuid = s.vless_uuid;
  hysteria2_password = s.hysteria2_password;
  subscription_token_hash_hex = s.subscription_token_hash_hex;
  created_at = now;
  expires_at = expires_at;
}

abbrev pub succeeded {ℓ κ} : {E : Type ℓ} {A : Type κ} → Result E A → Bool
succeeded (ok _) = true
succeeded (err _) = false

module _ (m : Machine) where
  -- the store is written once the server has the change; if that fails, the server is set back
  unfoldable pub save_or_roll_back :
      List CompatUser → List CompatUser → Bool → World → Result AdminError Bool × World
  save_or_roll_back previous_users users went_live w =
      let (saved, d) = save_users_atomic (m.host 2) m.users_json m.users_file users w.disk in
      let w1 = record w { disk = d } in
      elim saved [
        | ok _ ↦ (ok went_live, w1)
        | err e ↦
            let (rolled_back, w2) =
              render_and_apply_singbox_config m (m.host 3) previous_users true w1 in
            (err (save_failed e (succeeded rolled_back)), w2)
      ]

  unfoldable pub apply_users_and_save :
      List CompatUser → List CompatUser → World → Result AdminError Bool × World
  unfolding save_or_roll_back
  apply_users_and_save previous_users users w =
      let (applied, w1) = render_and_apply_singbox_config m (m.host 1) users true w in
      elim applied [
        | err e ↦ (err e, w1)
        | ok went_live ↦ save_or_roll_back previous_users users went_live w1
      ]

  -- the users are loaded, changed, applied and saved
  unfoldable pub change_and_apply :
      (List CompatUser → Result AdminError (List CompatUser))
      → World
      → Result AdminError Bool × World
  unfolding apply_users_and_save
  change_and_apply change w = elim (load_users (m.host 0) m.users_json m.users_file w.disk) [
    | err e ↦ (err (load e), w)
    | ok users ↦ elim (change users) [
      | err e ↦ (err e, w)
      | ok users' ↦ apply_users_and_save users users' w
    ]
  ]

  unfoldable pub cmd_user_set_enabled : String → Bool → World → Result AdminError Bool × World
  unfolding change_and_apply
  cmd_user_set_enabled id enabled =
      change_and_apply (found_user id (λ u. record u { enabled = enabled }))

  unfoldable pub cmd_user_rotate_vless : String → String → World → Result AdminError Bool × World
  unfolding change_and_apply
  cmd_user_rotate_vless id uuid =
      change_and_apply (found_user id (λ u. record u { vless_uuid = uuid }))

  unfoldable pub cmd_user_rotate_hysteria : String → String → World → Result AdminError Bool × World
  unfolding change_and_apply
  cmd_user_rotate_hysteria id password =
      change_and_apply (found_user id (λ u. record u { hysteria2_password = password }))

  unfoldable pub cmd_user_rotate_credentials :
      String → String → String → World → Result AdminError Bool × World
  unfolding change_and_apply
  cmd_user_rotate_credentials id uuid password =
      change_and_apply
        (found_user id (λ u. record u { vless_uuid = uuid; hysteria2_password = password }))

  unfoldable pub cmd_user_remove : String → World → Result AdminError Bool × World
  unfolding change_and_apply
  cmd_user_remove id = change_and_apply (λ users. ok_or (remove_user id users) no_such_user)

  -- the draws of identifiers are numbered, and at most `fuel` of them are made
  unfoldable pub cmd_user_create :
      ℕ → (ℕ → String) → String → Option ℕ → Secrets → World → Result AdminError Bool × World
  unfolding change_and_apply
  cmd_user_create fuel draw name expires_at secrets = change_and_apply λ users.
      elim (fresh_id fuel 0 draw users) [
        | none ↦ err out_of_fuel
        | some id ↦ ok (users ++ (new_user id name expires_at m.now secrets ∷ []))
      ]

  -- the token is in no configuration, so that only the store is written
  unfoldable pub cmd_user_rotate_token :
      String → String → World → Result AdminError (Unit {0}) × World
  cmd_user_rotate_token id hash w = elim (load_users (m.host 0) m.users_json m.users_file w.disk) [
    | err e ↦ (err (load e), w)
    | ok users ↦
        elim (change_user id (λ u. record u { subscription_token_hash_hex = hash }) users) [
          | none ↦ (err no_such_user, w)
          | some users' ↦
              let (saved, d) =
                save_users_atomic (m.host 2) m.users_json m.users_file users' w.disk in
              let w1 = record w { disk = d } in
              elim saved [ ok _ ↦ (ok tt, w1) | err e ↦ (err (load e), w1) ]
        ]
  ]
