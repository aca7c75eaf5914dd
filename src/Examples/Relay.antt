-- ===== src/Examples/Relay.antt =====
-- Theorems on the relay (services/relay-agent/src/lib.rs) and on backup archives
-- (apps/admin/src/main.rs) at small inputs.
use vpn.Prelude.{ℕ, Option, err, ◌≡◌, refl, true, List, [], ◌∷◌, ◌++◌, none, some, ok, arith}
use vpn.Common.Framing.{read_destination}
use vpn.RelayAgent.{
  ListenerEvent, accepted, accept_failed, task_ended, other_kind, default_limits, Window, ready,
  pending, copy_with_idle_timeout, idle_timeout, Net, ingress, egress, connected, Forwarded,
  handle_stream,
}
use vpn.RelayAgent.Slots.{IsBalanced, serve-IsBalanced}
use vpn.RelayAgent.Idle.{verdict, copy-verdict}
use vpn.RelayAgent.Hops.{two_hops}
use vpn.Admin.Archive.{Entry, extract_validated_backup, cur_dir, normal, directory, file}
use vpn.Admin.Archive.Laws.{IsSafe, extract_validated_backup-IsSafe}

abbrev events : List ListenerEvent
events =
    accepted
    ∷ accepted
    ∷ task_ended 0
    ∷ accept_failed (record { kind = other_kind; raw_os_error = some 24 })
    ∷ accepted
    ∷ []

serve-IsBalanced_example : IsBalanced (record default_limits { max_connections = 2 }) events
serve-IsBalanced_example = serve-IsBalanced (record default_limits { max_connections = 2 }) events

-- bytes in the first window, none in the second
abbrev windows : List Window
windows =
    record { polls = ready 5 ∷ pending ∷ []; finished = none }
    ∷ record { polls = pending ∷ ready 0 ∷ []; finished = none }
    ∷ []

copy-verdict_example : copy_with_idle_timeout windows 7 ≡ verdict windows
copy-verdict_example = copy-verdict windows 7 (omega arith) (omega arith)

given_up : copy_with_idle_timeout windows 7 ≡ some (err idle_timeout)
unfolding copy_with_idle_timeout
given_up = refl

-- the header of "ab" and port 443, and two bytes for the destination
abbrev client : List ℕ
client = 1 ∷ 0 ∷ 2 ∷ 97 ∷ 98 ∷ 1 ∷ 187 ∷ 5 ∷ 6 ∷ []

abbrev net : Net
net = record { header_in_time = true; dial = λ role host port. connected }

abbrev forwarded : Forwarded
forwarded = record {
  host = 97 ∷ 98 ∷ [];
  port = 443;
  preface = 1 ∷ 0 ∷ 2 ∷ 97 ∷ 98 ∷ 1 ∷ 187 ∷ [];
  left = 5 ∷ 6 ∷ [];
}

first_hop : handle_stream ingress net client ≡ ok forwarded
unfolding handle_stream read_destination vpn.Common.Framing.is_utf8
    vpn.Common.Framing.encode_destination
first_hop = refl

two_hops_example :
    (read_destination client ≡ ok ((97 ∷ 98 ∷ [], 443), 5 ∷ 6 ∷ []))
    × (handle_stream egress net (forwarded.preface ++ forwarded.left)
        ≡ ok (record forwarded { preface = [] }))
two_hops_example = two_hops net net client forwarded (omega arith) first_hop refl refl

abbrev entries : List (Option Entry)
entries =
    some (record {
      path = some (cur_dir ∷ []);
      entry_type = directory;
      size = 0;
      unpack_in = some true;
    })
    ∷ some (record {
      path = some (cur_dir ∷ normal "reality" ∷ normal "private.key" ∷ []);
      entry_type = file;
      size = 43;
      unpack_in = none;
    })
    ∷ []

extract_validated_backup-IsSafe_example : IsSafe (extract_validated_backup entries).1
extract_validated_backup-IsSafe_example = extract_validated_backup-IsSafe entries
