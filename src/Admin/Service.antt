-- ===== src/Admin/Service.antt =====
-- apps/admin/src/service.rs: `CompatibilityServiceManager`.
use vpn.Prelude.{
  ℕ, zero, suc, ◌+◌, ◌*◌, ◌≤◌, ◌<◌, ◌≡◌, ◌≢◌, inl, inr, Bool, false, ◌&&◌, ltb, nat_eq,
  if◌then◌else◌, List, Option, none, some, Result, ok, err, refl, Option-cases, lookup, string_Eq,
  arith, ltb→lt, Bool-cases,
}
use vpn.Admin.{Machine, World, Output}

pub data ReloadError : Type 0 where
  command_failed not_active out_of_fuel : ReloadError

abbrev succeeded : Option Output → Bool
succeeded (some o) = o.success
succeeded none = false

-- the config file as it is on the disk
abbrev pub on_disk : Machine → World → Option (List ℕ)
on_disk m w = elim (lookup m.singbox_config_file w.disk) [
  | some file ↦ some file.bytes
  | none ↦ none
]

below_ten : (r s e : ℕ) → r * s ≤ e → e < s * 10 → r < 10
below_ten r s e h k = grind arith

module _ (m : Machine) where
  -- `run`: a start that fails is tried once more
  unfoldable pub run : World → Option Output × World
  run w = elim (m.spawn w.calls) [
    | some o ↦ (some o, record w { calls = w.calls + 1 })
    | none ↦ (m.spawn (w.calls + 1), record w { calls = w.calls + 2 })
  ]

  unfoldable pub is_available : World → Bool × World
  unfolding run
  is_available w = let (o, w') = run w in (succeeded o, w')

  unfoldable pub is_unit_installed : World → Bool × World
  unfolding run
  is_unit_installed w =
      let (o, w') = run w in (elim o [ some out ↦ out.success && out.loaded | none ↦ false ], w')

  unfoldable pub is_active_unit : World → Bool × World
  unfolding run
  is_active_unit w = let (o, w') = run w in (succeeded o, w')

  -- a reload that is carried out reads the config file
  unfoldable pub reload_or_restart : World → Result ReloadError (Unit {0}) × World
  unfolding run
  reload_or_restart w =
      let (o, w') = run w in
      if succeeded o then (ok tt, record w' { loaded = on_disk m w' }) else (err command_failed, w')

  -- The loop of `reload_and_verify`: three checks in a row must find the unit active.
  unfoldable pub watch : ℕ → ℕ → ℕ → ℕ → World → Result ReloadError (Unit {0}) × World
  watch zero start round consecutive_active w = (err out_of_fuel, w)
  watch (suc fuel) start round consecutive_active w =
      let (active, w') = is_active_unit w in
      let seen = if active then consecutive_active + 1 else 0 in
      let rest = watch fuel start (round + 1) seen w' in
      if ltb (m.elapsed start round) (m.settle * 10)
      then if nat_eq seen 3 then (ok tt, w') else rest
      else (err not_active, w)

  abbrev pub rounds : ℕ
  rounds = 11

  unfoldable pub reload_and_verify : World → Result ReloadError (Unit {0}) × World
  unfolding watch
  reload_and_verify w =
      let (reloaded, w') = reload_or_restart w in
      elim reloaded [ err e ↦ (err e, w') | ok _ ↦ watch rounds w'.calls 0 0 w' ]

  run_keeps : (w : World) → ((run w).1.disk ≡ w.disk) × ((run w).1.loaded ≡ w.loaded)
  unfolding run
  run_keeps w = elim (Option-cases (m.spawn w.calls)) [
    | inl e ↦ (ground arith, ground arith)
    | inr (o, e) ↦ (ground arith, ground arith)
  ]

  -- asking systemd changes neither the disk nor what is loaded
  pub ask_keeps :
      (w : World)
      → ((is_available w).1.disk ≡ w.disk)
        × ((is_available w).1.loaded ≡ w.loaded)
        × ((is_unit_installed w).1.disk ≡ w.disk)
        × ((is_unit_installed w).1.loaded ≡ w.loaded)
        × ((is_active_unit w).1.disk ≡ w.disk)
        × ((is_active_unit w).1.loaded ≡ w.loaded)
  unfolding is_available is_unit_installed is_active_unit
  ask_keeps w = let (d, l) = run_keeps w in (d, l, d, l, d, l)

  watch_keeps :
      (fuel start round c : ℕ) (w : World)
      → ((watch fuel start round c w).1.disk ≡ w.disk)
        × ((watch fuel start round c w).1.loaded ≡ w.loaded)
  unfolding watch
  watch_keeps zero start round c w = (refl, refl)
  watch_keeps (suc fuel) start round c w =
      let a = is_active_unit w in
      let kept = ask_keeps w in
      let rest = watch_keeps fuel start (round + 1) (if a.0 then c + 1 else 0) a.1 in
      (ground (arith, kept, rest), ground (arith, kept, rest))

  -- A reload leaves the disk; one that succeeds has loaded the configuration that is there.
  pub reload_loads :
      (w : World)
      → ((reload_and_verify w).1.disk ≡ w.disk)
        × ((reload_and_verify w).0 ≡ ok tt → (reload_and_verify w).1.loaded ≡ on_disk m w)
  unfolding reload_and_verify reload_or_restart
  reload_loads w =
      let r = run w in
      let kept = run_keeps w in
      elim (Bool-cases (succeeded r.0)) [
        | inl e ↦
            let w1 = record r.1 { loaded = on_disk m r.1 } in
            let watched = watch_keeps rounds w1.calls 0 0 w1 in
            (ground (arith, watched, kept), λ done. ground (arith, watched, kept))
        | inr e ↦ (ground (arith, kept), λ done. ground (arith, kept))
      ]

  watch_ends :
      (fuel start round c : ℕ) (w : World)
      → ((s r : ℕ) → r * m.settle ≤ m.elapsed s r)
      → round < rounds
      → rounds ≤ fuel + round
      → (watch fuel start round c w).0 ≢ err out_of_fuel
  unfolding watch
  watch_ends zero start round c w clock below enough = absurd (omega arith)
  watch_ends (suc fuel) start round c w clock below enough =
      let a = is_active_unit w in
      let seen = if a.0 then c + 1 else 0 in
      elim (Bool-cases (ltb (m.elapsed start round) (m.settle * 10))) [
        | inr late ↦ ground arith
        | inl early ↦
            let soon : round < 10 =
              below_ten round m.settle (m.elapsed start round) (clock start round)
                (ltb→lt (m.elapsed start round) (m.settle * 10) early) in
            ground
              (arith, watch_ends fuel start (round + 1) seen a.1 clock (omega arith) (omega arith))
      ]

  -- If every check is preceded by a sleep of at least `settle`, the loop of a reload comes to its end
  -- within eleven rounds.
  pub reload_and_verify_ends :
      (w : World)
      → ((s r : ℕ) → r * m.settle ≤ m.elapsed s r)
      → (reload_and_verify w).0 ≢ err out_of_fuel
  unfolding reload_and_verify reload_or_restart
  reload_and_verify_ends w clock =
      let r = run w in
      let w1 = record r.1 { loaded = on_disk m r.1 } in
      ground (arith, watch_ends rounds w1.calls 0 0 w1 clock (omega arith) (omega arith))
