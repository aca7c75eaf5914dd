-- ===== src/Admin/Lock/Users.antt =====
-- The user commands of apps/admin/src/main.rs side by side: each loads the store, and applies and saves what
-- it made of it, at different times.
use vpn.Prelude.{
  ℕ, ◌≡◌, refl, ap, ◌∙◌, Bool, true, false, arith, List, [], ◌∷◌, none, Result, ok, err,
}
use vpn.CompatConfig.Model.{CompatUser, CompatError}
use vpn.CompatConfig.Users.{load_users}
use vpn.Admin.{Machine, World, AdminError}
use vpn.Admin.Users.{apply_users_and_save, change_and_apply}
use vpn.Admin.Lock.{
  Commands, user, create, enable, disable, rotate_vless, rotate_hysteria, rotate_credentials,
  remove, command_mutates_state, Program, done, action, run_program, run_schedule, at_start,
}
use vpn.Admin.Lock.Serial.{times, returned, run_commands}
use vpn.Admin.Lock.Serial.Steps.{concurrent_commands}

-- a change of the users, or why there is none
abbrev pub Change : Type 0
Change = List CompatUser → Result AdminError (List CompatUser)

unfoldable pub apply_loaded : Machine → Change → Result CompatError (List CompatUser) → Program
apply_loaded m change (err e) = done
apply_loaded m change (ok users) = elim (change users) [
  | err e ↦ done
  | ok users' ↦ action (λ w. (apply_users_and_save m users users' w).1) (λ w. done)
]

-- `change_and_apply`, with what others do between its load and the rest
unfoldable pub change_program : Machine → Change → Program
unfolding apply_loaded
change_program m change =
    action (λ w. w)
      (λ w. apply_loaded m change (load_users (m.host 0) m.users_json m.users_file w.disk))

run_program-loaded :
    (m : Machine) (change : Change) (w : World) (loaded : Result CompatError (List CompatUser))
    → load_users (m.host 0) m.users_json m.users_file w.disk ≡ loaded
    → run_program (apply_loaded m change loaded) w ≡ (change_and_apply m change w).1
unfolding run_program apply_loaded change_and_apply
run_program-loaded m change w (err e) h = rw (h, change_and_apply) refl
run_program-loaded m change w (ok users) h =
    rw (h, change_and_apply)
      (elim (change users)
        as (λ r.
          run_program
            (elim r as (λ x. Program) [
              | err e ↦ done
              | ok users' ↦ action (λ v. (apply_users_and_save m users users' v).1) (λ v. done)
            ])
            w
          ≡ (elim r as (λ x. Result AdminError Bool × World) [
            | err e ↦ (err e, w)
            | ok users' ↦ apply_users_and_save m users users' w
          ]).1) [ err e ↦ refl | ok users' ↦ refl ])

run_program-change :
    (m : Machine) (change : Change) (w : World)
    → run_program (change_program m change) w ≡ (change_and_apply m change w).1
unfolding run_program change_program
run_program-change m change w =
    run_program-loaded m change w (load_users (m.host 0) m.users_json m.users_file w.disk) refl

-- the commands that change the users and apply the change
abbrev pub changes_users : Commands → Bool
changes_users (user (create _ _ _ _)) = true
changes_users (user (enable _)) = true
changes_users (user (disable _)) = true
changes_users (user (rotate_vless _)) = true
changes_users (user (rotate_hysteria _)) = true
changes_users (user (rotate_credentials _)) = true
changes_users (user (remove _)) = true
changes_users _ = false

changes_users-locks : (c : Commands) → changes_users c ≡ true → command_mutates_state c ≡ true
unfolding command_mutates_state
changes_users-locks c h = ground arith

module _ (machine : ℕ → Machine) (change : ℕ → Change) where
  -- the commands one after another, the last one first in the list
  unfoldable pub change_in_order : List ℕ → World → World
  change_in_order [] w = w
  change_in_order (i ∷ is) w = (change_and_apply (machine i) (change i) (change_in_order is w)).1

  abbrev pub programs : ℕ → Program
  programs i = change_program (machine i) (change i)

  run_commands-change :
      (order : List ℕ) (w : World) → run_commands programs order w ≡ change_in_order order w
  unfolding run_commands change_in_order
  run_commands-change [] w = refl
  run_commands-change (i ∷ is) w =
      ap (run_program (programs i)) (run_commands-change is w)
      ∙ run_program-change (machine i) (change i) (change_in_order is w)

  no_reader : (b : Bool) → b ≡ false → b ≡ true → ⊥
  no_reader b n l = ground arith

  -- User commands that run side by side, each of which loads the store at one time and applies and saves
  -- what it made of it at another, lose no change: whenever nobody has the lock, the machine is as the
  -- commands that have returned leave it when each is run to its end before the next begins, each of
  -- them once and no other.
  pub concurrent_user_commands :
      (command : ℕ → Commands)
      → ((i : ℕ) → changes_users (command i) ≡ true)
      → (w : World) (is : List ℕ)
      → let s = run_schedule command programs is (at_start w) in
        s.holder ≡ none
        → (order : List ℕ) × (s.world ≡ change_in_order order w)
          × ((j : ℕ) → times j order ≡ returned (command j) (s.process j))
  concurrent_user_commands command users_only w is free =
      let locked = λ (i : ℕ). changes_users-locks (command i) (users_only i) in
      let (order, e, once) =
        concurrent_commands command programs w
          (λ i n. absurd (no_reader (command_mutates_state (command i)) n (locked i))) is free in
      (order, e ∙ run_commands-change order w, once)
