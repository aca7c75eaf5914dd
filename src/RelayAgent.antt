-- ===== src/RelayAgent.antt =====
-- services/relay-agent/src/lib.rs: the slots of the listener, the forwarding of one stream, and the
-- copy that ends when nothing moves.
pub mod Slots
pub mod Idle
pub mod Hops
use vpn.Prelude.{
  ℕ, suc, ◌+◌, ◌-◌, ◌%◌, ◌^◌, ◌≡◌, Bool, true, false, not, ◌||◌, ltb, nat_eq, nat_Eq, ◌==◌, keep,
  if◌then◌else◌, List, [], ◌∷◌, ◌++◌, length, Option, none, some, Result, ok, err, ◌>>=◌, map_err,
}
use vpn.Common.Framing.{IoError, read_destination, write_destination}

pub data Role : Type 0 where
  combined egress ingress : Role

pub record RelayLimits : Type 0 where
  pub max_connections : ℕ
  pub idle_timeout_secs : ℕ
  pub dial_timeout_secs : ℕ
  pub handshake_timeout_secs : ℕ

abbrev pub default_limits : RelayLimits
default_limits = record {
  max_connections = 256;
  idle_timeout_secs = 120;
  dial_timeout_secs = 8;
  handshake_timeout_secs = 10;
}

pub data ErrorKind : Type 0 where
  connection_aborted connection_reset interrupted would_block other_kind : ErrorKind

pub record AcceptError : Type 0 where
  pub kind : ErrorKind
  pub raw_os_error : Option ℕ

-- the kinds of error that a listener survives
unfoldable pub is_transient_kind : ErrorKind → Bool
is_transient_kind other_kind = false
is_transient_kind connection_aborted = true
is_transient_kind connection_reset = true
is_transient_kind interrupted = true
is_transient_kind would_block = true

unfoldable pub is_transient_accept_error : AcceptError → Bool
unfolding is_transient_kind
is_transient_accept_error e =
    is_transient_kind e.kind
    || elim e.raw_os_error [ some code ↦ nat_eq code 24 || nat_eq code 23 | none ↦ false ]

-- The listener of `serve_tls_on`: its permits, and the tasks that hold one, by number.
pub record Listener : Type 0 where
  pub stopped : Bool
  pub permits : ℕ
  pub tasks : List ℕ
  pub spawned : ℕ
  pub dropped : ℕ

-- What happens to it: a connection, an error of `accept`, or the end of a task, which lets go of its
-- permit. A task ends when its handshake fails or takes too long, or when its stream is over.
pub data ListenerEvent : Type 0 where
  accepted : ListenerEvent
  accept_failed : AcceptError → ListenerEvent
  task_ended : ℕ → ListenerEvent

abbrev pub listening : RelayLimits → Listener
listening limits = record {
  stopped = false;
  permits = limits.max_connections;
  tasks = [];
  spawned = 0;
  dropped = 0;
}

-- a connection takes a permit, or is dropped if there is none
unfoldable pub on_accepted : Listener → Listener
on_accepted l =
    if ltb 0 l.permits
    then record l { permits = l.permits - 1; tasks = l.spawned ∷ l.tasks; spawned = l.spawned + 1 }
    else record l { dropped = l.dropped + 1 }

abbrev pub remove_task : ℕ → List ℕ → List ℕ
remove_task id [] = []
remove_task id (t ∷ ts) = let rest = remove_task id ts in if nat_eq t id then ts else t ∷ rest

abbrev pub has_task : ℕ → List ℕ → Bool
has_task id [] = false
has_task id (t ∷ ts) = nat_eq t id || has_task id ts

unfoldable pub on_task_ended : ℕ → Listener → Listener
on_task_ended id l =
    if has_task id l.tasks
    then record l { permits = l.permits + 1; tasks = remove_task id l.tasks }
    else l

-- one event; a listener that has stopped accepts nothing, and its tasks go on
unfoldable pub serve_step : ListenerEvent → Listener → Listener
unfolding on_accepted on_task_ended is_transient_accept_error
serve_step accepted l = if l.stopped then l else on_accepted l
serve_step (accept_failed e) l =
    if l.stopped || is_transient_accept_error e then l else record l { stopped = true }
serve_step (task_ended id) l = on_task_ended id l

unfoldable pub serve : List ListenerEvent → Listener → Listener
unfolding serve_step
serve [] l = l
serve (e ∷ es) l = serve es (serve_step e l)

-- `ActivityTracked`: a read or a write that moves bytes bumps the counter, which wraps.
pub data Poll : Type 0 where
  pending failed : Poll
  ready : ℕ → Poll

unfoldable pub bump : Poll → ℕ → ℕ
bump (ready n) activity = if ltb 0 n then (activity + 1) % 2 ^ 64 else activity
bump pending activity = activity
bump failed activity = activity

unfoldable pub bump_all : List Poll → ℕ → ℕ
unfolding bump
bump_all [] activity = activity
bump_all (p ∷ ps) activity = bump_all ps (bump p activity)

-- One round of `timeout(idle, copy)`: the polls in it, and the end of the copy if it came.
pub record Window : Type 0 where
  pub polls : List Poll
  pub finished : Option (Result IoError (Unit {0}))

pub data CopyError : Type 0 where
  copy_failed : IoError → CopyError
  idle_timeout : CopyError

-- `none` while the copy is still going after these windows
unfoldable pub copy_with_idle_timeout : List Window → ℕ → Option (Result CopyError (Unit {0}))
unfolding bump_all
copy_with_idle_timeout [] activity = none
copy_with_idle_timeout (w ∷ ws) activity =
    let after = bump_all w.polls activity in
    let rest = copy_with_idle_timeout ws after in
    elim w.finished [
      | some r ↦ some (map_err copy_failed r)
      | none ↦ if nat_eq after activity then some (err idle_timeout) else rest
    ]

pub data StreamError : Type 0 where
  header_timed_out dial_timed_out dial_failed : StreamError
  bad_header bad_destination : IoError → StreamError

-- How the network answers: whether the header comes in time, and the dial of an upstream.
pub data DialAnswer : Type 0 where
  timed_out refused connected : DialAnswer

pub record Net : Type 0 where
  pub header_in_time : Bool
  pub dial : Role → List ℕ → ℕ → DialAnswer

-- A stream that is forwarded: the destination that was asked for, what the upstream got before the
-- copy, and what is left of the client's bytes.
pub record Forwarded : Type 0 where
  pub host : List ℕ
  pub port : ℕ
  pub preface : List ℕ
  pub left : List ℕ

-- the dial of the upstream, within the time for it
unfoldable pub dialled : DialAnswer → Result StreamError (Unit {0})
dialled connected = ok tt
dialled timed_out = err dial_timed_out
dialled refused = err dial_failed

-- what is sent to the upstream first: the header, if that is another relay
unfoldable pub preface_for : Role → List ℕ → ℕ → Result StreamError (List ℕ)
unfolding write_destination
preface_for combined host port = ok []
preface_for egress host port = ok []
preface_for ingress host port = map_err bad_destination (write_destination [] host port)

-- `handle_stream` up to the copy
unfoldable pub handle_stream : Role → Net → List ℕ → Result StreamError Forwarded
unfolding dialled preface_for
handle_stream role net client = if not net.header_in_time then err header_timed_out else do
  ((host, port), left) ← map_err bad_header (read_destination client)
  dialled (net.dial role host port) >>= λ _. do
    preface ← preface_for role host port
    ok (record { host = host; port = port; preface = preface; left = left })
