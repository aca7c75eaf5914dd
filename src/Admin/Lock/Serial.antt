-- ===== src/Admin/Lock/Serial.antt =====
-- What it is for commands that run side by side (apps/admin/src/main.rs, lock.rs) to come out as one after
-- another.
pub mod Invariant
pub mod Steps
use vpn.Prelude.{
  ℕ, ◌+◌, ◌≡◌, ◌≢◌, refl, sym, ap, ◌∙◌, subst, inl, inr, Bool, true, false, nat_eq, nat_eq_iff,
  if◌then◌else◌, List, [], ◌∷◌, Option, none, some, Option-cases, Bool-cases, arith,
}
use vpn.Admin.{World}
use vpn.Admin.Lock.{
  Commands, command_mutates_state, Program, done, action, run_program, Process, starting, holding,
  reading, exited, System, with_process, acquire_state_lock, step_process, run_schedule, at_start,
}

-- a program that changes nothing
abbrev pub IsReadOnly : Program → Type 0
IsReadOnly done = Unit {0}
IsReadOnly (action f next) = ((w : World) → f w ≡ w) × ((w : World) → IsReadOnly (next w))

-- how often a process is in an order
unfoldable pub times : ℕ → List ℕ → ℕ
times i [] = 0
times i (j ∷ js) = (if nat_eq j i then 1 else 0) + times i js

-- one for a process that has returned and had the lock, zero for any other
unfoldable pub returned : Commands → Process → ℕ
returned c exited = if command_mutates_state c then 1 else 0
returned c _ = 0

module _ (program : ℕ → Program) where
  -- the commands one after another, the last one first in the list
  unfoldable pub run_commands : List ℕ → World → World
  unfolding run_program
  run_commands [] w = w
  run_commands (i ∷ is) w = run_program (program i) (run_commands is w)
