-- ===== src/Socks/Request.antt =====
-- What a SOCKS client sends to ask for a destination (RFC 1928), and what comes of it in the listener and
-- at the relay (apps/client-daemon/src/socks.rs).
use vpn.Prelude.{
  ℕ, ◌+◌, ◌*◌, ◌<◌, ◌≡◌, refl, Bool, true, List, [], ◌∷◌, ◌++◌, length, ok, arith, subst,
}
use vpn.Common.Framing.{is_utf8, from_be_bytes, read_exact, read_u8, read_u16}
use vpn.Common.Framing.RoundTrip.{IsBytes}
use vpn.Common.Framing.Stream.{read_exact-append, read-write}
use vpn.RelayAgent.{Net, egress, connected, handle_stream, dialled}
use vpn.Socks.Address.{ipv4_to_string, ipv6_to_string}
use vpn.Socks.Address.Text.{ipv4_to_string-IsShort, ipv6_to_string-IsText}
use vpn.Socks.Host.{IsHost, IsText-IsHost}
use vpn.Socks.Tunnel.{write-IsHost}
use vpn.Socks.{
  Tunnelled, read_greeting, read_ipv4, read_domain, read_ipv6, read_host, read_request, open_tunnel,
  handle_client,
}

-- what a client can ask for: a name, or the bytes of an address
pub data Asked : Type 0 where
  domain ipv4 ipv6 : List ℕ → Asked

-- a name that is text and whose length is a byte, or as many bytes as the address has
abbrev pub IsAsked : Asked → Type 0
IsAsked (domain name) = IsHost name
IsAsked (ipv4 address) = IsBytes address × (length address ≡ 4)
IsAsked (ipv6 address) = IsBytes address × (length address ≡ 16)

-- the type of the address, and the address
abbrev pub address_of : Asked → List ℕ
address_of (ipv4 address) = 1 ∷ address
address_of (domain name) = 3 ∷ length name ∷ name
address_of (ipv6 address) = 4 ∷ address

abbrev pub host_of : Asked → List ℕ
host_of (domain name) = name
host_of (ipv4 address) = ipv4_to_string address
host_of (ipv6 address) = ipv6_to_string address

-- The client's bytes: the greeting with its methods, a CONNECT request with its reserved byte and the
-- two bytes of the port, and what follows.
abbrev pub request : List ℕ → ℕ → Asked → ℕ → ℕ → List ℕ → List ℕ
request methods reserved asked hi lo left =
    5 ∷ length methods ∷ (methods ++ 5 ∷ 1 ∷ reserved ∷ (address_of asked ++ hi ∷ lo ∷ left))

read_greeting-methods :
    (methods rest : List ℕ) → read_greeting (5 ∷ length methods ∷ (methods ++ rest)) ≡ ok rest
unfolding read_greeting read_u8
read_greeting-methods methods rest = ground (arith, read_exact-append methods rest)

read_ipv4-address :
    (address rest : List ℕ)
    → length address ≡ 4
    → read_ipv4 (address ++ rest) ≡ ok (ipv4_to_string address, rest)
unfolding read_ipv4
read_ipv4-address address rest len =
    let e : read_exact 4 (address ++ rest) ≡ ok (address, rest) =
      subst (λ n. read_exact n (address ++ rest) ≡ ok (address, rest)) len
        (read_exact-append address rest) in
    ground (arith, e)

read_ipv6-address :
    (address rest : List ℕ)
    → length address ≡ 16
    → read_ipv6 (address ++ rest) ≡ ok (ipv6_to_string address, rest)
unfolding read_ipv6
read_ipv6-address address rest len =
    let e : read_exact 16 (address ++ rest) ≡ ok (address, rest) =
      subst (λ n. read_exact n (address ++ rest) ≡ ok (address, rest)) len
        (read_exact-append address rest) in
    ground (arith, e)

read_domain-name :
    (name rest : List ℕ)
    → is_utf8 name ≡ true
    → read_domain (length name ∷ (name ++ rest)) ≡ ok (name, rest)
unfolding read_domain read_u8
read_domain-name name rest text = ground (arith, read_exact-append name rest)

read_request-asked :
    (reserved : ℕ) (asked : Asked) (hi lo : ℕ) (left : List ℕ)
    → IsAsked asked
    → read_request (5 ∷ 1 ∷ reserved ∷ (address_of asked ++ hi ∷ lo ∷ left))
      ≡ ok ((host_of asked, from_be_bytes hi lo), left)
unfolding read_request read_u8 read_u16 read_host
read_request-asked reserved (domain name) hi lo left fits =
    ground (arith, read_domain-name name (hi ∷ lo ∷ left) fits.0)
read_request-asked reserved (ipv4 address) hi lo left fits =
    ground (arith, read_ipv4-address address (hi ∷ lo ∷ left) fits.1)
read_request-asked reserved (ipv6 address) hi lo left fits =
    ground (arith, read_ipv6-address address (hi ∷ lo ∷ left) fits.1)

host_of-IsHost : (asked : Asked) → IsAsked asked → IsHost (host_of asked)
host_of-IsHost (domain name) fits = fits
host_of-IsHost (ipv4 address) fits =
    IsText-IsHost (ipv4_to_string address) (ipv4_to_string-IsShort address fits.0 fits.1)
host_of-IsHost (ipv6 address) fits =
    IsText-IsHost (ipv6_to_string address) (ipv6_to_string-IsText address fits.0 fits.1)

module _ (connects : List ℕ → ℕ → Bool) where
  -- What a client of the SOCKS listener asks for, by name or by address, is what the relay at the other
  -- end of its tunnel dials, with the bytes behind the request right behind the header: if the engine
  -- has a session for it, the header arrives in time and the relay reaches the destination.
  pub handle_client-asked :
      (net : Net) (methods : List ℕ) (reserved : ℕ) (asked : Asked) (hi lo : ℕ) (left : List ℕ)
      → IsAsked asked
      → hi < 256
      → lo < 256
      → connects (host_of asked) (hi * 256 + lo) ≡ true
      → net.header_in_time ≡ true
      → net.dial egress (host_of asked) (hi * 256 + lo) ≡ connected
      → (t : Tunnelled) × ((handle_client connects
            (request methods reserved asked hi lo left)).outcome
          ≡ ok t)
        × (t.host ≡ host_of asked)
        × (t.port ≡ hi * 256 + lo)
        × (t.left ≡ left)
        × (handle_stream egress net (t.preface ++ t.left)
            ≡ ok (record { host = host_of asked; port = hi * 256 + lo; preface = []; left = left }))
  unfolding handle_client open_tunnel handle_stream dialled
  handle_client-asked net methods reserved asked hi lo left fits small_hi small_lo session timely
        dial =
      let port = hi * 256 + lo in
      let host_fits = host_of-IsHost asked fits in
      let (sent, wrote) = write-IsHost (host_of asked) port host_fits in
      let greeted =
        read_greeting-methods methods (5 ∷ 1 ∷ reserved ∷ (address_of asked ++ hi ∷ lo ∷ left)) in
      let heard = read_request-asked reserved asked hi lo left fits in
      let read = read-write (host_of asked) port sent left host_fits.0 (omega arith) wrote in
      (
        record { host = host_of asked; port = port; preface = sent; left = left },
        ground (arith, greeted, heard, wrote),
        refl,
        refl,
        refl,
        ground (arith, read),
      )
