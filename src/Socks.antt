-- ===== src/Socks.antt =====
-- apps/client-daemon/src/socks.rs: the SOCKS5 listener's handling of one client. The client's stream is
-- the list of its bytes.
pub mod Address
pub mod Host
pub mod Tunnel
pub mod Reply
pub mod Request
use vpn.Prelude.{
  ℕ, ◌+◌, ◌*◌, Bool, not, ◌||◌, if◌then◌else◌, nat_eq, List, [], ◌∷◌, ◌++◌, Option, Result, ok, err,
  ◌>>=◌, ◌>>◌, fail_if, map_err,
}
use vpn.Common.Framing.{IoError, is_utf8, read_u8, read_u16, read_exact, write_destination}
use vpn.Socks.Address.{ipv4_to_string, ipv6_to_string}

pub data SocksError : Type 0 where
  io : IoError → SocksError
  unsupported_version : ℕ → SocksError
  only_connect : ℕ → SocksError
  invalid_domain : SocksError
  unsupported_atyp : ℕ → SocksError
  engine_failed : SocksError
  destination_refused : IoError → SocksError

-- What was asked for, what the tunnel got before the copy, and what is left of the client's bytes.
pub record Tunnelled : Type 0 where
  pub host : List ℕ
  pub port : ℕ
  pub preface : List ℕ
  pub left : List ℕ

-- what the client got before the copy, and how it came out
pub record Session : Type 0 where
  pub sent : List ℕ
  pub outcome : Result SocksError Tunnelled

-- a reply with an address of zeros
abbrev pub reply : ℕ → List ℕ
reply code = 5 ∷ code ∷ 0 ∷ 1 ∷ 0 ∷ 0 ∷ 0 ∷ 0 ∷ 0 ∷ 0 ∷ []

abbrev pub no_auth : List ℕ
no_auth = 5 ∷ 0 ∷ []

-- the rest of the stream after the greeting
unfoldable pub read_greeting : List ℕ → Result SocksError (List ℕ)
unfolding read_u8 read_exact
read_greeting s = do
  (ver, s1) ← map_err io (read_u8 s)
  fail_if (not (nat_eq ver 5)) (unsupported_version ver)
  (nmethods, s2) ← map_err io (read_u8 s1)
  (_, s3) ← map_err io (read_exact nmethods s2)
  ok s3

unfoldable pub read_ipv4 : List ℕ → Result SocksError (List ℕ × List ℕ)
unfolding read_exact
read_ipv4 s = do (buf, s1) ← map_err io (read_exact 4 s); ok (ipv4_to_string buf, s1)

unfoldable pub read_domain : List ℕ → Result SocksError (List ℕ × List ℕ)
unfolding read_u8 read_exact
read_domain s = do
  (len, s1) ← map_err io (read_u8 s)
  (buf, s2) ← map_err io (read_exact len s1)
  fail_if (not (is_utf8 buf)) invalid_domain
  ok (buf, s2)

unfoldable pub read_ipv6 : List ℕ → Result SocksError (List ℕ × List ℕ)
unfolding read_exact
read_ipv6 s = do (buf, s1) ← map_err io (read_exact 16 s); ok (ipv6_to_string buf, s1)

unfoldable pub read_host : ℕ → List ℕ → Result SocksError (List ℕ × List ℕ)
unfolding read_ipv4 read_domain read_ipv6
read_host atyp s =
    if nat_eq atyp 1
    then read_ipv4 s
    else if nat_eq atyp 3
    then read_domain s
    else if nat_eq atyp 4
    then read_ipv6 s
    else err (unsupported_atyp atyp)

unfoldable pub read_request : List ℕ → Result SocksError ((List ℕ × ℕ) × List ℕ)
unfolding read_u8 read_u16 read_host
read_request s = do
  (ver, s1) ← map_err io (read_u8 s)
  (cmd, s2) ← map_err io (read_u8 s1)
  (_, s3) ← map_err io (read_u8 s2)
  (atyp, s4) ← map_err io (read_u8 s3)
  fail_if (not (nat_eq ver 5) || not (nat_eq cmd 1)) (only_connect cmd)
  (host, s5) ← read_host atyp s4
  (port, s6) ← map_err io (read_u16 s5)
  ok ((host, port), s6)

-- the reply that goes with an error, if one does
unfoldable pub refusal : SocksError → List ℕ
refusal (only_connect _) = reply 7
refusal (unsupported_atyp _) = reply 8
refusal engine_failed = reply 1
refusal _ = []

-- The tunnel to a destination, if the engine has a session for it.
unfoldable pub open_tunnel : (List ℕ → ℕ → Bool) → List ℕ → ℕ → List ℕ → Session
unfolding write_destination refusal
open_tunnel connects host port left =
    if connects host port
    then record {
      sent = no_auth ++ reply 0;
      outcome = (elim (write_destination [] host port) [
        | err e ↦ err (destination_refused e)
        | ok preface ↦ ok (record { host = host; port = port; preface = preface; left = left })
      ]);
    }
    else record { sent = no_auth ++ refusal engine_failed; outcome = err engine_failed }

-- `handle_client` up to the copy
unfoldable pub handle_client : (List ℕ → ℕ → Bool) → List ℕ → Session
unfolding read_greeting read_request open_tunnel
handle_client connects s = elim (read_greeting s) [
  | err e ↦ record { sent = []; outcome = err e }
  | ok s1 ↦ elim (read_request s1) [
    | err e ↦ record { sent = no_auth ++ refusal e; outcome = err e }
    | ok ((host, port), left) ↦ open_tunnel connects host port left
  ]
]
