-- ===== src/RelayAgent/Hops.antt =====
-- Two relays in a row (services/relay-agent/src/lib.rs).
use vpn.Prelude.{ℕ, ◌≡◌, refl, inl, inr, true, List, ◌++◌, [], ok, arith, Bool-cases, Result-cases}
use vpn.Common.Framing.{read_destination, write_destination}
use vpn.Common.Framing.RoundTrip.{IsBytes}
use vpn.Common.Framing.Stream.{read-write}
use vpn.Common.Framing.Reading.{read_destination-valid, map_err-ok}
use vpn.RelayAgent.{
  Role, egress, ingress, Net, DialAnswer, connected, timed_out, refused, Forwarded, dialled,
  preface_for, handle_stream, bad_destination,
}

dialled-ok : (a : DialAnswer) → dialled a ≡ ok tt → a ≡ connected
unfolding dialled
dialled-ok connected h = refl
dialled-ok timed_out h = cc
dialled-ok refused h = cc

handle_stream-ok :
    (role : Role) (net : Net) (client : List ℕ) (f : Forwarded)
    → handle_stream role net client ≡ ok f
    → (read_destination client ≡ ok ((f.host, f.port), f.left))
      × (preface_for role f.host f.port ≡ ok f.preface)
      × (net.dial role f.host f.port ≡ connected)
unfolding handle_stream
handle_stream-ok role net client f h = elim (Bool-cases net.header_in_time) [
  | inr late ↦ absurd (ground arith)
  | inl timely ↦ elim (Result-cases (read_destination client)) [
    | inr (x, e) ↦ absurd (ground arith)
    | inl (((host, port), left), e) ↦ elim (Result-cases (preface_for role host port)) [
      | inr (x, e') ↦ absurd (ground arith)
      | inl (preface, e') ↦ elim (Result-cases (dialled (net.dial role host port))) [
        | inr (x, e'') ↦ absurd (ground arith)
        | inl (_, e'') ↦
            let made : record { host = host; port = port; preface = preface; left = left } ≡ f =
              ground arith in
            let dial = dialled-ok (net.dial role host port) e'' in (cc, cc, cc)
      ]
    ]
  ]
]

-- What a client asks of the first of two relays is what the second dials: the header that the first
-- has sent on reads back as the same destination, with the client's bytes right behind it.
pub two_hops :
    (net1 net2 : Net) (client : List ℕ) (f : Forwarded)
    → IsBytes client
    → handle_stream ingress net1 client ≡ ok f
    → net2.header_in_time ≡ true
    → net2.dial egress f.host f.port ≡ connected
    → (read_destination client ≡ ok ((f.host, f.port), f.left))
      × (handle_stream egress net2 (f.preface ++ f.left) ≡ ok (record f { preface = [] }))
unfolding handle_stream dialled
two_hops net1 net2 client f b h timely dial =
    let (was_read, sent, _) = handle_stream-ok ingress net1 client f h in
    let (text, small) = read_destination-valid client f.host f.port f.left b was_read in
    let again =
      read-write f.host f.port f.preface f.left text small
        (map_err-ok bad_destination (write_destination [] f.host f.port) sent) in
    (was_read, ground (arith, again))
