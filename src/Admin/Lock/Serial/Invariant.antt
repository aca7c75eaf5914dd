-- ===== src/Admin/Lock/Serial/Invariant.antt =====
-- An invariant of the commands that run side by side (apps/admin/src/main.rs, lock.rs).
use vpn.Prelude.{
  ℕ, ◌≡◌, ◌≢◌, refl, sym, ap, ◌∙◌, subst, inl, inr, true, false, nat_eq, nat_eq_iff, if◌then◌else◌,
  List, ◌∷◌, Option, none, some, Bool-cases, arith,
}
use vpn.Admin.{World}
use vpn.Admin.Lock.{
  Commands, command_mutates_state, Program, run_program, Process, starting, holding, reading,
  exited, System,
}
use vpn.Admin.Lock.Serial.{IsReadOnly, times, returned, run_commands}

module _ (command : ℕ → Commands) (program : ℕ → Program) where
  -- What is true of a process, for the holder, the world and the order so far.
  abbrev pub Fits : Option ℕ → World → List ℕ → World → ℕ → Process → Type 0
  Fits holder now order w i starting = times i order ≡ 0
  Fits holder now order w i (holding p) =
      (holder ≡ some i)
      × (times i order ≡ 0)
      × (command_mutates_state (command i) ≡ true)
      × (run_program p now ≡ run_program (program i) (run_commands program order w))
  Fits holder now order w i (reading p) =
      (times i order ≡ 0) × (command_mutates_state (command i) ≡ false) × IsReadOnly p
  Fits holder now order w i exited = times i order ≡ returned (command i) exited

  -- Without a holder the world is the serial one, and a holder is at its command.
  abbrev pub IsHeld : Option ℕ → World → List ℕ → World → (ℕ → Process) → Type 0
  IsHeld none now order w process = now ≡ run_commands program order w
  IsHeld (some h) now order w process = (p : Program) × (process h ≡ holding p)

  pub record IsSerial (w : World) (order : List ℕ) (s : System) : Type 0 where
    pub processes : (j : ℕ) → Fits s.holder s.world order w j (s.process j)
    pub lock : IsHeld s.holder s.world order w s.process

  -- a statement on all processes, after a change of one
  pub updated :
      (P : ℕ → Process → Type 0) (i : ℕ) (p : Process) (process : ℕ → Process)
      → P i p
      → ((j : ℕ) → nat_eq i j ≡ false → P j (process j))
      → (j : ℕ) → P j (if nat_eq i j then p else process j)
  updated P i p process own others j = elim (Bool-cases (nat_eq i j)) [
    | inl e ↦ rw e (subst (λ k. P k p) ((nat_eq_iff i j).0 e) own)
    | inr e ↦ rw e (others j e)
  ]

  another :
      (i j : ℕ) (holder : Option ℕ) → holder ≡ some i → holder ≡ some j → nat_eq i j ≡ false → ⊥
  another i j holder h k n = ground arith

  -- The lock is taken: nobody had it.
  pub Fits-take :
      (i : ℕ) (now : World) (order : List ℕ) (w : World) (j : ℕ) (q : Process)
      → Fits none now order w j q
      → Fits (some i) now order w j q
  Fits-take i now order w j starting f = f
  Fits-take i now order w j (holding p) f = absurd (cc)
  Fits-take i now order w j (reading p) f = f
  Fits-take i now order w j exited f = f

  -- The holder acts: no other process has the lock.
  pub Fits-act :
      (i : ℕ) (holder : Option ℕ) (now next : World) (order : List ℕ) (w : World) (j : ℕ)
      (q : Process)
      → holder ≡ some i
      → nat_eq i j ≡ false
      → Fits holder now order w j q
      → Fits holder next order w j q
  Fits-act i holder now next order w j starting h n f = f
  Fits-act i holder now next order w j (holding p) h n f = absurd (another i j holder h f.0 n)
  Fits-act i holder now next order w j (reading p) h n f = f
  Fits-act i holder now next order w j exited h n f = f

  -- The holder returns, and is the last of the order.
  pub Fits-release :
      (i : ℕ) (holder : Option ℕ) (now : World) (order : List ℕ) (w : World) (j : ℕ) (q : Process)
      → holder ≡ some i
      → nat_eq i j ≡ false
      → Fits holder now order w j q
      → Fits none now (i ∷ order) w j q
  unfolding times returned
  Fits-release i holder now order w j starting h n f = ground arith
  Fits-release i holder now order w j (holding p) h n f = absurd (another i j holder h f.0 n)
  Fits-release i holder now order w j (reading p) h n f = (ground arith, f.1, f.2)
  Fits-release i holder now order w j exited h n f = ground arith

  pub counted :
      (i : ℕ) (order : List ℕ)
      → times i order ≡ 0
      → command_mutates_state (command i) ≡ true
      → times i (i ∷ order) ≡ returned (command i) exited
  unfolding times returned
  counted i order none_so_far m = rw ((nat_eq_iff i i).1 refl, m, none_so_far) refl

  pub uncounted :
      (i : ℕ) (order : List ℕ)
      → times i order ≡ 0
      → command_mutates_state (command i) ≡ false
      → times i order ≡ returned (command i) exited
  unfolding returned
  uncounted i order none_so_far m = rw m none_so_far

  -- a change of a process that has not the lock leaves the holder where it is
  pub IsHeld-other :
      (i : ℕ) (q : Process) (holder : Option ℕ) (now : World) (order : List ℕ) (w : World)
      (process : ℕ → Process)
      → ((p : Program) → process i ≢ holding p)
      → IsHeld holder now order w process
      → IsHeld holder now order w (λ j. if nat_eq i j then q else process j)
  IsHeld-other i q none now order w process n held = held
  IsHeld-other i q (some h) now order w process n (p, e) = elim (Bool-cases (nat_eq i h)) [
    | inl same ↦ absurd (n p (ap process ((nat_eq_iff i h).0 same) ∙ e))
    | inr other ↦ (p, rw other e)
  ]

  pub IsHeld-self :
      (i : ℕ) (p : Program) (holder : Option ℕ) (now : World) (order : List ℕ) (w : World)
      (process : ℕ → Process)
      → holder ≡ some i
      → IsHeld holder now order w (λ j. if nat_eq i j then holding p else process j)
  IsHeld-self i p holder now order w process h =
      subst (λ o. IsHeld o now order w (λ j. if nat_eq i j then holding p else process j)) (sym h)
        (p, rw ((nat_eq_iff i i).1 refl) refl)
