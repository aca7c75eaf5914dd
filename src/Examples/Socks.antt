-- ===== src/Examples/Socks.antt =====
-- Theorems on the SOCKS listener (apps/client-daemon/src/socks.rs) for one client.
use vpn.Prelude.{ℕ, Bool, true, List, [], ◌∷◌, ◌++◌, ok, ◌≡◌, ◌↔◌, refl, arith}
use vpn.RelayAgent.{Net, egress, connected, handle_stream}
use vpn.Socks.Address.{ipv4_to_string, ipv6_to_string}
use vpn.Socks.{Tunnelled, no_auth, reply, handle_client}
use vpn.Socks.Request.{ipv4, domain, request, handle_client-asked}
use vpn.Socks.Reply.{success_iff}

-- one method, and a request for port 443 of "ab"; two bytes follow
abbrev client : List ℕ
client = 5 ∷ 1 ∷ 0 ∷ 5 ∷ 1 ∷ 0 ∷ 3 ∷ 2 ∷ 97 ∷ 98 ∷ 1 ∷ 187 ∷ 5 ∷ 6 ∷ []

abbrev tunnel : Tunnelled
tunnel = record {
  host = 97 ∷ 98 ∷ [];
  port = 443;
  preface = 1 ∷ 0 ∷ 2 ∷ 97 ∷ 98 ∷ 1 ∷ 187 ∷ [];
  left = 5 ∷ 6 ∷ [];
}

abbrev always : List ℕ → ℕ → Bool
always host port = true

abbrev net : Net
net = record { header_in_time = true; dial = λ role host port. connected }

opened : (handle_client always client).outcome ≡ ok tunnel
unfolding handle_client vpn.Common.Framing.is_utf8 vpn.Common.Framing.encode_destination
    vpn.Common.Framing.read_u8 vpn.Common.Framing.read_u16 vpn.Common.Framing.read_exact
opened = refl

-- the same request, encoded
encoded : request (0 ∷ []) 0 (domain (97 ∷ 98 ∷ [])) 1 187 (5 ∷ 6 ∷ []) ≡ client
encoded = refl

-- a request for port 443 of 10.0.255.1
handle_client-asked_example :
    (t : Tunnelled) × ((handle_client always
        (request (0 ∷ 2 ∷ []) 0 (ipv4 (10 ∷ 0 ∷ 255 ∷ 1 ∷ [])) 1 187 (5 ∷ 6 ∷ []))).outcome
      ≡ ok t)
    × (t.host ≡ ipv4_to_string (10 ∷ 0 ∷ 255 ∷ 1 ∷ []))
    × (t.port ≡ 443)
    × (t.left ≡ 5 ∷ 6 ∷ [])
    × (handle_stream egress net (t.preface ++ t.left)
        ≡ ok (record {
          host = ipv4_to_string (10 ∷ 0 ∷ 255 ∷ 1 ∷ []);
          port = 443;
          preface = [];
          left = 5 ∷ 6 ∷ [];
        }))
handle_client-asked_example =
    handle_client-asked always net (0 ∷ 2 ∷ []) 0 (ipv4 (10 ∷ 0 ∷ 255 ∷ 1 ∷ [])) 1 187 (5 ∷ 6 ∷ [])
      (omega arith, refl) (omega arith) (omega arith) refl refl refl

success_iff_example :
    ((handle_client always client).sent ≡ no_auth ++ reply 0)
    ↔ ((t : Tunnelled) × ((handle_client always client).outcome ≡ ok t))
success_iff_example = success_iff always client (omega arith)

-- 10.0.255.1
four_bytes :
    ipv4_to_string (10 ∷ 0 ∷ 255 ∷ 1 ∷ []) ≡ 49 ∷ 48 ∷ 46 ∷ 48 ∷ 46 ∷ 50 ∷ 53 ∷ 53 ∷ 46 ∷ 49 ∷ []
unfolding ipv4_to_string
four_bytes = refl

-- fe80::1
compressed_zeroes :
    ipv6_to_string (254 ∷ 128 ∷ 0 ∷ 0 ∷ 0 ∷ 0 ∷ 0 ∷ 0 ∷ 0 ∷ 0 ∷ 0 ∷ 0 ∷ 0 ∷ 0 ∷ 0 ∷ 1 ∷ [])
    ≡ 102 ∷ 101 ∷ 56 ∷ 48 ∷ 58 ∷ 58 ∷ 49 ∷ []
unfolding ipv6_to_string
compressed_zeroes = refl

-- ::ffff:1.2.3.4
mapped :
    ipv6_to_string (0 ∷ 0 ∷ 0 ∷ 0 ∷ 0 ∷ 0 ∷ 0 ∷ 0 ∷ 0 ∷ 0 ∷ 255 ∷ 255 ∷ 1 ∷ 2 ∷ 3 ∷ 4 ∷ [])
    ≡ 58 ∷ 58 ∷ 102 ∷ 102 ∷ 102 ∷ 102 ∷ 58 ∷ 49 ∷ 46 ∷ 50 ∷ 46 ∷ 51 ∷ 46 ∷ 52 ∷ []
unfolding ipv6_to_string
mapped = refl
