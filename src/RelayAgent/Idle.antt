-- ===== src/RelayAgent/Idle.antt =====
-- When a copy is given up (services/relay-agent/src/lib.rs).
use vpn.Prelude.{
  ℕ, ◌+◌, ◌%◌, ◌^◌, ◌<◌, ◌≡◌, refl, inl, inr, ltb, nat_eq, if◌then◌else◌, List, [], ◌∷◌, Option,
  none, some, Result, err, map_err, arith, Option-cases,
}
use vpn.RelayAgent.{
  Poll, pending, failed, ready, bump_all, Window, CopyError, copy_failed, idle_timeout,
  copy_with_idle_timeout,
}

-- the polls that moved bytes
abbrev pub moved : List Poll → ℕ
moved [] = 0
moved (pending ∷ ps) = moved ps
moved (failed ∷ ps) = moved ps
moved (ready n ∷ ps) = moved ps + (if ltb 0 n then 1 else 0)

-- What is promised of a copy: it ends with its own result, or at the first window in which nothing
-- moved in either direction.
abbrev pub verdict : List Window → Option (Result CopyError (Unit {0}))
verdict [] = none
verdict (w ∷ ws) = elim w.finished [
  | some r ↦ some (map_err copy_failed r)
  | none ↦ if nat_eq (moved w.polls) 0 then some (err idle_timeout) else verdict ws
]

-- fewer moves in each window than the counter has values
abbrev pub IsCountable : List Window → Type 0
IsCountable [] = Unit {0}
IsCountable (w ∷ ws) = (moved w.polls < 2 ^ 64) × IsCountable ws

bump_all-moved : (ps : List Poll) (a : ℕ) → a < 2 ^ 64 → bump_all ps a ≡ (a + moved ps) % 2 ^ 64
unfolding bump_all
bump_all-moved [] a h = omega arith
bump_all-moved (pending ∷ ps) a h = bump_all-moved ps a h
bump_all-moved (failed ∷ ps) a h = bump_all-moved ps a h
bump_all-moved (ready n ∷ ps) a h =
    ground (arith, bump_all-moved ps a h, bump_all-moved ps ((a + 1) % 2 ^ 64) (omega arith))

-- The counter that wraps sees what the promise asks for: the copy gives up exactly at the first
-- window in which nothing moved, however long it has been going, as long as no window has 2 ^ 64
-- moves.
pub copy-verdict :
    (ws : List Window) (activity : ℕ)
    → activity < 2 ^ 64
    → IsCountable ws
    → copy_with_idle_timeout ws activity ≡ verdict ws
unfolding copy_with_idle_timeout
copy-verdict [] activity h c = refl
copy-verdict (w ∷ ws) activity h c =
    let after = bump_all w.polls activity in
    let counted = bump_all-moved w.polls activity h in
    let below : after < 2 ^ 64 = omega (arith, counted) in
    let rest = copy-verdict ws after below c.1 in
    elim (Option-cases w.finished) [
      | inr (r, e) ↦ ground arith
      | inl e ↦ ground (arith, counted, rest)
    ]
