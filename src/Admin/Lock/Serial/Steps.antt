-- ===== src/Admin/Lock/Serial/Steps.antt =====
-- The invariant holds from the start, and through every step (apps/admin/src/main.rs, lock.rs).
use vpn.Prelude.{
  ℕ, ◌≡◌, ◌≢◌, refl, sym, ap, subst, inl, inr, true, false, List, [], ◌∷◌, Option, none, some,
  Bool-cases,
}
use vpn.Admin.{World}
use vpn.Admin.Lock.{
  Commands, command_mutates_state, Program, done, action, run_program, Process, starting, holding,
  reading, exited, System, with_process, acquire_state_lock, step_process, run_schedule, at_start,
}
use vpn.Admin.Lock.Serial.{IsReadOnly, times, returned, run_commands}
use vpn.Admin.Lock.Serial.Invariant.{
  Fits, IsHeld, IsSerial, updated, Fits-take, Fits-act, Fits-release, counted, uncounted,
  IsHeld-other, IsHeld-self,
}

module _ (command : ℕ → Commands) (program : ℕ → Program) (w : World)
    (reads : (i : ℕ) → command_mutates_state (command i) ≡ false → IsReadOnly (program i)) where
  abbrev StaysSerial : System → Type 0
  StaysSerial s = (order : List ℕ) × IsSerial command program w order s

  -- Taking the lock, or waiting for it.
  acquire-IsSerial :
      (i : ℕ) (order : List ℕ) (s : System) (holder : Option ℕ)
      → s.holder ≡ holder
      → s.process i ≡ starting
      → command_mutates_state (command i) ≡ true
      → IsSerial command program w order s
      → IsSerial command program w order (acquire_state_lock command program i holder s)
  unfolding acquire_state_lock
  acquire-IsSerial i order s (some h) e q m serial = serial
  acquire-IsSerial i order s none e q m serial =
      let held = subst (λ o. IsHeld command program o s.world order w s.process) e serial.lock in
      let fits =
        subst (λ o. (j : ℕ) → Fits command program o s.world order w j (s.process j)) e
          serial.processes in
      let mine = subst (Fits command program none s.world order w i) q (fits i) in
      record {
        processes =
            updated command program (Fits command program (some i) s.world order w) i
              (holding (program i)) s.process (refl, mine, m, ap (run_program (program i)) held)
              (λ j n. Fits-take command program i s.world order w j (s.process j) (fits j));
        lock = IsHeld-self command program i (program i) (some i) s.world order w s.process refl;
      }

  -- A process without the lock goes on, and the world is as it was.
  other-IsSerial :
      (i : ℕ) (q : Process) (now : World) (order : List ℕ) (s : System)
      → ((p : Program) → s.process i ≢ holding p)
      → s.world ≡ now
      → Fits command program s.holder s.world order w i q
      → IsSerial command program w order s
      → IsSerial command program w order (record (with_process i q s) { world = now })
  other-IsSerial i q now order s n e mine serial =
      subst (λ v. IsSerial command program w order (record (with_process i q s) { world = v })) e
        (record {
          processes =
              updated command program (Fits command program s.holder s.world order w) i q s.process
                mine (λ j _. serial.processes j);
          lock = IsHeld-other command program i q s.holder s.world order w s.process n serial.lock;
        })

  step_process-IsSerial :
      (i : ℕ) (q : Process) (order : List ℕ) (s : System)
      → s.process i ≡ q
      → IsSerial command program w order s
      → StaysSerial (step_process command program i q s)
  unfolding step_process run_program run_commands
  step_process-IsSerial i starting order s e serial =
      let mine = subst (Fits command program s.holder s.world order w i) e (serial.processes i) in
      elim (Bool-cases (command_mutates_state (command i))) [
        | inl m ↦ (order, rw m (acquire-IsSerial i order s s.holder refl e m serial))
        | inr m ↦ (
          order,
          rw m (
              other-IsSerial i (reading (program i)) s.world order s (λ p h. cc) refl
                (mine, m, reads i m) serial),
        )
      ]
  step_process-IsSerial i (holding (action f next)) order s e serial =
      let mine = subst (Fits command program s.holder s.world order w i) e (serial.processes i) in
      (
        order,
        record {
          processes =
              updated command program (Fits command program s.holder (f s.world) order w) i
                (holding (next s.world)) s.process mine
                (λ j n.
                  Fits-act command program i s.holder s.world (f s.world) order w j (s.process j)
                    mine.0 n (serial.processes j));
          lock =
              IsHeld-self command program i (next s.world) s.holder (f s.world) order w s.process
                mine.0;
        },
      )
  step_process-IsSerial i (holding done) order s e serial =
      let mine = subst (Fits command program s.holder s.world order w i) e (serial.processes i) in
      (
        i ∷ order,
        record {
          processes =
              updated command program (Fits command program none s.world (i ∷ order) w) i exited
                s.process (counted command program i order mine.1 mine.2)
                (λ j n.
                  Fits-release command program i s.holder s.world order w j (s.process j) mine.0 n
                    (serial.processes j));
          lock = mine.3;
        },
      )
  step_process-IsSerial i (reading (action f next)) order s e serial =
      let mine = subst (Fits command program s.holder s.world order w i) e (serial.processes i) in
      (
        order,
        other-IsSerial i (reading (next s.world)) (f s.world) order s (λ p h. cc)
            (sym (mine.2.0 s.world)) (mine.0, mine.1, mine.2.1 s.world) serial,
      )
  step_process-IsSerial i (reading done) order s e serial =
      let mine = subst (Fits command program s.holder s.world order w i) e (serial.processes i) in
      (
        order,
        other-IsSerial i exited s.world order s (λ p h. cc) refl
            (uncounted command program i order mine.0 mine.1) serial,
      )
  step_process-IsSerial i exited order s e serial = (order, serial)

  pub run_schedule-IsSerial :
      (is order : List ℕ) (s : System)
      → IsSerial command program w order s
      → StaysSerial (run_schedule command program is s)
  unfolding run_schedule
  run_schedule-IsSerial [] order s serial = (order, serial)
  run_schedule-IsSerial (i ∷ is) order s serial =
      let (order', serial') = step_process-IsSerial i (s.process i) order s refl serial in
      run_schedule-IsSerial is order' (step_process command program i (s.process i) s) serial'

  pub at_start-IsSerial : IsSerial command program w [] (at_start w)
  unfolding times run_commands
  at_start-IsSerial = record { processes = λ j. refl; lock = refl }

  Fits-returned :
      (holder : Option ℕ) (now : World) (order : List ℕ) (j : ℕ) (q : Process)
      → Fits command program holder now order w j q
      → times j order ≡ returned (command j) q
  unfolding returned
  Fits-returned holder now order j starting f = f
  Fits-returned holder now order j (holding p) f = f.1
  Fits-returned holder now order j (reading p) f = f.0
  Fits-returned holder now order j exited f = f

  -- Commands run side by side, whatever the order in which the machine lets them go on, and those that
  -- take no lock change nothing. Whenever nobody has the lock, the world is what the commands that had
  -- it and have returned make of it one after another, each of them once and no other command.
  pub concurrent_commands :
      (is : List ℕ)
      → let s = run_schedule command program is (at_start w) in
        s.holder ≡ none
        → (order : List ℕ) × (s.world ≡ run_commands program order w)
          × ((j : ℕ) → times j order ≡ returned (command j) (s.process j))
  concurrent_commands is free =
      let s = run_schedule command program is (at_start w) in
      let (order, serial) = run_schedule-IsSerial is [] (at_start w) at_start-IsSerial in
      (
        order,
        subst (λ o. IsHeld command program o s.world order w s.process) free serial.lock,
        λ j. Fits-returned s.holder s.world order j (s.process j) (serial.processes j),
      )
