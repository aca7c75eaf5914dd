-- ===== src/FailureClassifier.antt =====
-- crates/failure-classifier/src/lib.rs: the state of one connection, and the guard that stops the
-- engine from switching transports while almost nothing gets through.

pub mod Guard
use vpn.Prelude.{
  ℕ, ◌+◌, ◌%◌, ◌^◌, Bool, true, false, ◌&&◌, not, ltb, leb, nat_eq, if◌then◌else◌, max, List, [],
  ◌∷◌, ◌++◌, length, keep, Option, none, some, F32,
}
use vpn.NetworkState.{FailureCategory}

pub data ConnectionState : Type 0 where
  idle connecting connected healthy degraded : ConnectionState
  failed : FailureCategory → ConnectionState
  closed : ConnectionState

pub data Event : Type 0 where
  start_connecting connect_succeeded : Event
  connect_failed : FailureCategory → Event
  data_flowing stall_detected user_close reset : Event

-- the arms of the `match`; the last one keeps the state
unfoldable pub transition : ConnectionState → Event → ConnectionState
transition _ user_close = closed
transition _ reset = idle
transition idle start_connecting = connecting
transition connecting connect_succeeded = connected
transition connecting (connect_failed cat) = failed cat
transition connected data_flowing = healthy
transition connected stall_detected = degraded
transition healthy stall_detected = degraded
transition healthy data_flowing = healthy
transition degraded data_flowing = healthy
transition (failed _) start_connecting = connecting
transition s _ = s

-- Every event of a list in turn.
unfoldable pub run : ConnectionState → List Event → ConnectionState
run s [] = s
run s (e ∷ es) = run (transition s e) es

-- `VecDeque::pop_front`
pub pop_front : List (ℕ × Bool) → List (ℕ × Bool)
pop_front [] = []
pop_front (x ∷ xs) = xs

unfoldable pub failures : List (ℕ × Bool) → List (ℕ × Bool)
failures = keep (λ (o : ℕ × Bool). not o.1)

module _ (f : F32) where
  -- `window` is the deque from its front: the oldest outcome first.
  pub record ShutdownGuard : Type 0 where
    pub window : List (ℕ × Bool)
    pub window_size : ℕ
    pub failure_fraction_threshold : f.Float
    pub cooldown_ticks : ℕ
    pub cooldown_until : Option ℕ

  unfoldable pub new : ℕ → f.Float → ℕ → ShutdownGuard
  new size threshold ticks = record {
    window = [];
    window_size = size;
    failure_fraction_threshold = threshold;
    cooldown_ticks = ticks;
    cooldown_until = none;
  }

  -- `ShutdownGuard::record`
  unfoldable pub record_outcome : ShutdownGuard → ℕ → Bool → ShutdownGuard
  unfolding pop_front
  record_outcome g tick success =
      let room = if leb g.window_size (length g.window) then pop_front g.window else g.window in
      record g { window = room ++ (tick, success) ∷ [] }

  unfoldable pub failure_fraction : ShutdownGuard → f.Float
  unfolding failures
  failure_fraction g =
      if nat_eq (length g.window) 0
      then f.hundredths 0
      else f.div (f.of_count (length (failures g.window))) (f.of_count (length g.window))

  -- the test that arms the cooldown, and the cooldown from `tick` on (a `u64`)
  unfoldable pub arm : ShutdownGuard → ℕ → ShutdownGuard × Bool
  unfolding failure_fraction
  arm g tick =
      if leb (max g.window_size 4) (length g.window)
        && f.le g.failure_fraction_threshold (failure_fraction g)
      then (record g { cooldown_until = some ((tick + g.cooldown_ticks) % 2 ^ 64) }, true)
      else (g, false)

  unfoldable pub should_suppress_switching : ShutdownGuard → ℕ → ShutdownGuard × Bool
  unfolding arm
  should_suppress_switching g tick = elim g.cooldown_until [
    | none ↦ arm g tick
    | some until ↦
        if ltb tick until
        then (g, true)
        else arm (record g { cooldown_until = none; window = [] }) tick
  ]
