-- ===== src/RelayAgent/Slots.antt =====
-- The slots of a relay (services/relay-agent/src/lib.rs).
use vpn.Prelude.{
  ℕ, ◌+◌, ◌≡◌, refl, ◌∙◌, Bool, true, false, not, ◌||◌, leb, if◌then◌else◌, List, [], ◌∷◌, length,
  arith,
}
use vpn.RelayAgent.{
  RelayLimits, is_transient_accept_error, Listener, ListenerEvent, accepted, accept_failed,
  task_ended, listening, remove_task, has_task, serve_step, serve,
}

length-remove_task :
    (id : ℕ) (ts : List ℕ) → has_task id ts ≡ true → length (remove_task id ts) + 1 ≡ length ts
length-remove_task id [] h = cc
length-remove_task id (t ∷ ts) h = ground (arith, length-remove_task id ts)

-- an error of `accept` that a listener does not survive
abbrev pub is_fatal : ListenerEvent → Bool
is_fatal (accept_failed e) = not (is_transient_accept_error e)
is_fatal accepted = false
is_fatal (task_ended id) = false

abbrev pub any_fatal : List ListenerEvent → Bool
any_fatal [] = false
any_fatal (e ∷ es) = is_fatal e || any_fatal es

serve_step-permits :
    (e : ListenerEvent) (l : Listener)
    → (serve_step e l).permits + length (serve_step e l).tasks ≡ l.permits + length l.tasks
unfolding serve_step
serve_step-permits accepted l = ground arith
serve_step-permits (accept_failed e) l = ground arith
serve_step-permits (task_ended id) l = ground (arith, length-remove_task id l.tasks)

serve-permits :
    (es : List ListenerEvent) (l : Listener)
    → (serve es l).permits + length (serve es l).tasks ≡ l.permits + length l.tasks
unfolding serve
serve-permits [] l = refl
serve-permits (e ∷ es) l = serve-permits es (serve_step e l) ∙ serve_step-permits e l

serve_step-stopped :
    (e : ListenerEvent) (l : Listener) → (serve_step e l).stopped ≡ l.stopped || is_fatal e
unfolding serve_step
serve_step-stopped accepted l = ground arith
serve_step-stopped (accept_failed e) l = ground arith
serve_step-stopped (task_ended id) l = ground arith

serve-stopped :
    (es : List ListenerEvent) (l : Listener) → (serve es l).stopped ≡ l.stopped || any_fatal es
unfolding serve
serve-stopped [] l = ground arith
serve-stopped (e ∷ es) l = ground (arith, serve-stopped es (serve_step e l), serve_step-stopped e l)

-- What holds of a listener after whatever has happened to it: every slot is free or held by a task
-- that runs, it has stopped if and only if `accept` failed in a way that does not pass, and a
-- connection that comes next is given a task unless it has stopped or every slot is held.
pub record IsBalanced (limits : RelayLimits) (events : List ListenerEvent) : Type 0 where
  pub balanced :
      (serve events (listening limits)).permits + length (serve events (listening limits)).tasks
      ≡ limits.max_connections
  pub stops : (serve events (listening limits)).stopped ≡ any_fatal events
  pub next_served : length (serve_step accepted (serve events (listening limits))).tasks ≡ (
      if any_fatal events
        || leb limits.max_connections (length (serve events (listening limits)).tasks)
      then length (serve events (listening limits)).tasks
      else length (serve events (listening limits)).tasks + 1)

-- After any events, in any order, the slots of a relay are balanced.
pub serve-IsBalanced :
    (limits : RelayLimits) (events : List ListenerEvent) → IsBalanced limits events
unfolding serve_step
serve-IsBalanced limits events =
    let l = serve events (listening limits) in
    let balanced : l.permits + length l.tasks ≡ limits.max_connections =
      omega (arith, serve-permits events (listening limits)) in
    let stops : l.stopped ≡ any_fatal events = serve-stopped events (listening limits) in
    record { balanced = balanced; stops = stops; next_served = ground arith }
