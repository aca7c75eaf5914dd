-- ===== src/Admin/Lock.antt =====
-- apps/admin/src/main.rs and lock.rs: the commands, which of them take the state lock, and processes that
-- run them side by side.
pub mod Serial
pub mod Users
use vpn.Prelude.{
  ℕ, String, Bool, true, false, nat_eq, if◌then◌else◌, List, [], ◌∷◌, Option, none, some,
}
use vpn.Admin.{World}

pub data ConfigCommands : Type 0 where
  config_validate config_migrate : ConfigCommands

pub data UserCommands : Type 0 where
  create : (name : String) (expires_at : Option ℕ) (qr json : Bool) → UserCommands
  list : UserCommands
  enable disable rotate_vless rotate_hysteria rotate_credentials remove subscription qr_code :
      (user_id : String) → UserCommands
  links rotate_token : (user_id : String) (qr : Bool) → UserCommands

pub data Commands : Type 0 where
  init : (rotate : Bool) → Commands
  render_config : (require_applied : Bool) → Commands
  version status hysteria_obfs_rotate : Commands
  doctor : (protocol require_protocol telegram report client performance : Bool) → Commands
  backup : (output : Option String) → Commands
  restore : (archive : String) → Commands
  user : UserCommands → Commands
  config : ConfigCommands → Commands

unfoldable pub command_mutates_state : Commands → Bool
command_mutates_state version = false
command_mutates_state status = false
command_mutates_state (doctor _ _ _ _ _ _) = false
command_mutates_state (user list) = false
command_mutates_state (user (subscription _)) = false
command_mutates_state (config config_validate) = false
command_mutates_state _ = true

-- What a command still does: each action is one that others cannot see half done, and what comes next
-- depends on what it found.
pub data Program : Type 0 where
  done : Program
  action : (World → World) → (World → Program) → Program

-- a program that nothing interrupts
unfoldable pub run_program : Program → World → World
run_program done w = w
run_program (action f next) w = run_program (next w) (f w)

-- A process before it asks for the lock, with the lock, without one, and after it has returned.
pub data Process : Type 0 where
  starting : Process
  holding reading : Program → Process
  exited : Process

pub record System : Type 0 where
  pub world : World
  -- the process whose file descriptor has the `flock`
  pub holder : Option ℕ
  pub process : ℕ → Process

abbrev pub with_process : ℕ → Process → System → System
with_process i p s = record s { process = λ j. if nat_eq i j then p else s.process j }

module _ (command : ℕ → Commands) (program : ℕ → Program) where
  -- `flock` waits while another has it
  unfoldable pub acquire_state_lock : ℕ → Option ℕ → System → System
  acquire_state_lock i none s = record (with_process i (holding (program i)) s) { holder = some i }
  acquire_state_lock i (some other) s = s

  unfoldable pub step_process : ℕ → Process → System → System
  unfolding command_mutates_state acquire_state_lock
  step_process i starting s =
      if command_mutates_state (command i)
      then acquire_state_lock i s.holder s
      else with_process i (reading (program i)) s
  step_process i (holding (action f next)) s = record (with_process i (holding (next s.world)) s) {
    world = f s.world;
  }
  step_process i (holding done) s = record (with_process i exited s) { holder = none }
  step_process i (reading (action f next)) s = record (with_process i (reading (next s.world)) s) {
    world = f s.world;
  }
  step_process i (reading done) s = with_process i exited s
  step_process i exited s = s

  -- the processes in the order in which the machine lets them go on
  unfoldable pub run_schedule : List ℕ → System → System
  unfolding step_process
  run_schedule [] s = s
  run_schedule (i ∷ is) s = run_schedule is (step_process i (s.process i) s)

abbrev pub at_start : World → System
at_start w = record { world = w; holder = none; process = λ j. starting }
