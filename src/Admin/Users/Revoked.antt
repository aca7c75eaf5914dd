-- ===== src/Admin/Users/Revoked.antt =====
-- A user who is removed or disabled is turned away (apps/admin/src/main.rs).
use mathlib.Core.List.{Memᴰ}
use vpn.Prelude.{
  ℕ, ◌≡◌, ◌≢◌, ◌⊎◌, inl, inr, refl, sym, ap, ◌∙◌, subst, String, string_Eq, ◌==◌, Bool, true, false,
  not, keep, mem-keep, List, [], ◌∷◌, some, Result, ok, ok_or, ok_or-ok, arith, Option-cases,
  Bool-cases,
}
use vpn.CompatConfig.Model.{CompatUser, RealityServerParams, UsersJsonLaws, is_active}
use vpn.CompatConfig.Server.Accepts.{accepts, IsAdmitted, render_admits}
use vpn.CompatConfig.Users.{load_users}
use vpn.Admin.{Machine, World, AdminError, no_such_user}
use vpn.Admin.Apply.{document}
use vpn.Admin.Apply.Loaded.{StampIsHonest, IsLoaded, live-IsLoaded}
use vpn.Admin.Users.{
  is_user, change_user, found_user, remove_user, change_and_apply, cmd_user_remove,
  cmd_user_set_enabled,
}
use vpn.Admin.Users.Laws.{IsLaidOut, IsDone, change_and_apply_done}

-- Whoever is left is another user, or may not connect.
abbrev pub Withdraws : String → List CompatUser → List CompatUser → Type 0
Withdraws id previous users =
    (v : CompatUser) → Memᴰ v users → (Memᴰ v previous × (v.id ≢ id)) ⊎ (v.enabled ≡ false)

abbrev pub NoUser : String → List CompatUser → Type 0
NoUser id users = (v : CompatUser) → Memᴰ v users → v.id ≢ id

-- no two users have this identifier
abbrev pub IsUnique : String → List CompatUser → Type 0
IsUnique id [] = Unit {0}
IsUnique id (u ∷ us) = (u.id ≡ id → NoUser id us) × IsUnique id us

remove_user-Withdraws :
    (id : String) (users users' : List CompatUser)
    → remove_user id users ≡ some users'
    → Withdraws id users users'
unfolding remove_user
remove_user-Withdraws id users users' e v inside =
    let kept : users' ≡ keep (λ u. not (is_user id u)) users = ground arith in
    let (stored, other) = mem-keep (λ u. not (is_user id u)) users (subst (Memᴰ v) kept inside) in
    inl (stored, λ same. ground (arith, string_Eq.beq_iff v.id id))

abbrev pub disabled : CompatUser → CompatUser
disabled u = record u { enabled = false }

withdrawn_found :
    (id : String) (u : CompatUser) (us : List CompatUser)
    → (u.id ≡ id → NoUser id us)
    → (u.id == id) ≡ true
    → Withdraws id (u ∷ us) (disabled u ∷ us)
withdrawn_found id u us alone found v (Memᴰ.head q) = inr (ap (λ x. x.enabled) q)
withdrawn_found id u us alone found v (Memᴰ.tail m) =
    inl (Memᴰ.tail m, alone ((string_Eq.beq_iff u.id id).0 found) v m)

withdrawn_later :
    (id : String) (u : CompatUser) (us us' : List CompatUser)
    → (u.id == id) ≡ false
    → Withdraws id us us'
    → Withdraws id (u ∷ us) (u ∷ us')
withdrawn_later id u us us' other rest v (Memᴰ.head q) =
    inl (Memᴰ.head q, λ same. cc ((string_Eq.beq_iff u.id id).1 (sym (ap (λ x. x.id) q) ∙ same)))
withdrawn_later id u us us' other rest v (Memᴰ.tail m) = elim (rest v m) [
  | inl (stored, ne) ↦ inl (Memᴰ.tail stored, ne)
  | inr off ↦ inr off
]

change_user-Withdraws :
    (id : String) (users users' : List CompatUser)
    → IsUnique id users
    → change_user id disabled users ≡ some users'
    → Withdraws id users users'
unfolding change_user
change_user-Withdraws id [] users' unique e v inside = absurd (cc)
change_user-Withdraws id (u ∷ us) users' unique e v inside = elim (Bool-cases (u.id == id)) [
  | inl found ↦
      let made : users' ≡ disabled u ∷ us = ground arith in
      withdrawn_found id u us unique.0 found v (subst (Memᴰ v) made inside)
  | inr other ↦ elim (Option-cases (change_user id disabled us)) [
    | inl e' ↦ absurd (ground arith)
    | inr (us', e') ↦
        let made : users' ≡ u ∷ us' = ground arith in
        withdrawn_later id u us us' other (change_user-Withdraws id us us' unique.1 e') v
          (subst (Memᴰ v) made inside)
  ]
]

-- The configuration admits no secret of the user that no other user has.
pub record Refuses (m : Machine) (reality : RealityServerParams) (id : String)
    (previous users : List CompatUser) : Type 0 where
  pub vless :
      (uuid : String)
      → ((v : CompatUser) → Memᴰ v previous → v.id ≢ id → v.vless_uuid ≢ uuid)
      → accepts "vless" "uuid" uuid (document m users reality) ≡ false
  pub hysteria :
      (password : String)
      → ((v : CompatUser) → Memᴰ v previous → v.id ≢ id → v.hysteria2_password ≢ password)
      → accepts "hysteria2" "password" password (document m users reality) ≡ false

not_admitted :
    (id secret : String) (previous users : List CompatUser) (secret_of : CompatUser → String)
    (now : ℕ)
    → Withdraws id previous users
    → ((v : CompatUser) → Memᴰ v previous → v.id ≢ id → secret_of v ≢ secret)
    → IsAdmitted users now secret_of secret
    → ⊥
unfolding is_active
not_admitted id secret previous users secret_of now gone others a = elim (gone a.user a.stored) [
  | inl (stored, ne) ↦ others a.user stored ne a.matches
  | inr off ↦ cc (rw off at a.active)
]

refused : (b : Bool) → (b ≡ true → ⊥) → b ≡ false
refused true h = absurd (h refl)
refused false h = refl

refuses :
    (m : Machine) (reality : RealityServerParams) (id : String) (previous users : List CompatUser)
    → Withdraws id previous users
    → Refuses m reality id previous users
refuses m reality id previous users gone = record {
  vless = λ uuid others. refused (accepts "vless" "uuid" uuid (document m users reality)) λ e.
      not_admitted id uuid previous users (λ u. u.vless_uuid) m.now gone others
        ((render_admits users reality m.hysteria m.ports m.now uuid "").0.0 e);
  hysteria = λ password others.
      refused (accepts "hysteria2" "password" password (document m users reality)) λ e.
        not_admitted id password previous users (λ u. u.hysteria2_password) m.now gone others
          ((render_admits users reality m.hysteria m.ports m.now "" password).1.0 e);
}

-- A change that is stored and loaded, and turns the user away.
pub record IsRevoked (m : Machine) (laid_out : IsLaidOut m) (id : String)
    (reality : RealityServerParams) (change : List CompatUser → Result AdminError (List CompatUser))
    (before after : World) : Type 0 where
  pub done : IsDone m laid_out change true before after
  pub loaded : IsLoaded m done.users reality after
  pub refuses : Refuses m reality id done.previous done.users

module _ (m : Machine) (laid_out : IsLaidOut m) (laws : UsersJsonLaws m.users_json) (id : String)
    (reality : RealityServerParams) (keyset : m.reality ≡ some reality) (w : World)
    (honest : StampIsHonest m w) where
  revoked :
      (change : List CompatUser → Result AdminError (List CompatUser))
      → ((previous users : List CompatUser)
          → load_users (m.host 0) m.users_json m.users_file w.disk ≡ ok previous
          → change previous ≡ ok users
          → Withdraws id previous users)
      → (change_and_apply m change w).0 ≡ ok true
      → IsRevoked m laid_out id reality change w (change_and_apply m change w).1
  revoked change withdraws done =
      let d = change_and_apply_done m laid_out laws change w true done in
      record {
        done = d;
        loaded =
            live-IsLoaded m d.users reality w d.applied _ honest (d.is_live refl reality keyset)
              d.same_loaded;
        refuses =
            refuses m reality id d.previous d.users
              (withdraws d.previous d.users d.was_stored d.changed);
      }

  -- After a removal that is reported live the other users are stored, and what systemd has loaded is a
  -- configuration that admits none of the secrets that only the removed user had. The stamp that was
  -- there before is taken to be honest: where it fits the file, the file was loaded.
  pub cmd_user_remove_revokes :
      (cmd_user_remove m id w).0 ≡ ok true
      → IsRevoked m laid_out id reality
          (λ users. ok_or (remove_user id users) no_such_user)
          w
          (cmd_user_remove m id w).1
  unfolding cmd_user_remove
  cmd_user_remove_revokes =
      revoked (λ users. ok_or (remove_user id users) no_such_user)
        λ previous users was e.
          remove_user-Withdraws id previous users
            (ok_or-ok (remove_user id previous) no_such_user e)

  -- Likewise for disabling a user, where no other user of the store has the identifier.
  pub cmd_user_disable_revokes :
      ((previous : List CompatUser)
        → load_users (m.host 0) m.users_json m.users_file w.disk ≡ ok previous
        → IsUnique id previous)
      → (cmd_user_set_enabled m id false w).0 ≡ ok true
      → IsRevoked m laid_out id reality
          (found_user id disabled)
          w
          (cmd_user_set_enabled m id false w).1
  unfolding cmd_user_set_enabled
  cmd_user_disable_revokes unique = revoked (found_user id disabled) λ previous users was e.
      change_user-Withdraws id previous users (unique previous was)
        (ok_or-ok (change_user id disabled previous) no_such_user e)
