-- ===== src/Socks/Tunnel.antt =====
-- The tunnel of a SOCKS client is never refused by its header (apps/client-daemon/src/socks.rs).
use vpn.Prelude.{
  ℕ, ◌≡◌, ◌≢◌, inl, inr, Bool, true, false, not, List, [], Result, ok, err, map_err, fail_if,
  nat_eq, arith, Bool-cases, Result-cases, bind-ok, ◌>>=◌, ok-injective, subst,
}
use vpn.Common.Framing.{
  IoError, read_u8, read_u16, read_exact, encode_destination, write_destination,
}
use vpn.Common.Framing.RoundTrip.{IsBytes}
use vpn.Socks.Host.{IsHost, read_byte, read_exact-read, read_request-IsHost}
use vpn.Socks.{
  SocksError, io, unsupported_version, only_connect, invalid_domain, read_ipv4, read_domain,
  read_ipv6, read_host, destination_refused, read_greeting, read_request, open_tunnel,
  handle_client,
}

pub read_greeting-IsBytes : (s rest : List ℕ) → IsBytes s → read_greeting s ≡ ok rest → IsBytes rest
unfolding read_greeting
read_greeting-IsBytes s rest b h =
    let ((ver, s1), e1, h1) = bind-ok (map_err io (read_u8 s)) _ h in
    let (_, _, h2) = bind-ok (fail_if (not (nat_eq ver 5)) (unsupported_version ver)) _ h1 in
    let ((n, s2), e2, h3) = bind-ok (map_err io (read_u8 s1)) _ h2 in
    let ((methods, s3), e3, h4) = bind-ok (map_err io (read_exact n s2)) _ h3 in
    let b2 = (read_byte s1 n s2 (read_byte s ver s1 b e1).1 e2).1 in
    subst IsBytes (ok-injective h4) (read_exact-read n s2 methods s3 b2 e3).2

-- the header of a host that fits is written
pub write-IsHost :
    (host : List ℕ) (port : ℕ)
    → IsHost host
    → (sent : List ℕ) × (write_destination [] host port ≡ ok sent)
unfolding write_destination encode_destination
write-IsHost host port fits = elim (Result-cases (write_destination [] host port)) [
  | inl (sent, e) ↦ (sent, e)
  | inr (x, e) ↦ absurd (ground (arith, fits.1))
]

module _ (x : IoError) where
  -- a result that is not the refusal of a destination
  abbrev IsOther {ℓ} : {A : Type ℓ} → Result SocksError A → Type ℓ
  IsOther r = r ≢ err (destination_refused x)

  bind-IsOther {ℓ κ} :
      {A : Type ℓ} {B : Type κ} (r : Result SocksError A) (k : A → Result SocksError B)
      → IsOther r
      → ((a : A) → IsOther (k a))
      → IsOther (r >>= k)
  bind-IsOther (ok a) k o os = os a
  bind-IsOther (err e) k o os = λ q. o (ground arith)

  io-IsOther {ℓ} : {A : Type ℓ} (r : Result IoError A) → IsOther (map_err io r)
  io-IsOther (ok a) = λ q. cc
  io-IsOther (err e) = λ q. cc

  fail_if-IsOther : (c : Bool) (e : SocksError) → e ≢ destination_refused x → IsOther (fail_if c e)
  fail_if-IsOther true e ne = λ q. ne (ground arith)
  fail_if-IsOther false e ne = λ q. cc

  read_greeting-IsOther : (s : List ℕ) → IsOther (read_greeting s)
  unfolding read_greeting
  read_greeting-IsOther s = bind-IsOther _ _ (io-IsOther (read_u8 s)) λ (ver, s1).
      bind-IsOther _ _ (fail_if-IsOther _ (unsupported_version ver) (λ q. cc)) λ _.
        bind-IsOther _ _ (io-IsOther (read_u8 s1))
          λ (n, s2). bind-IsOther _ _ (io-IsOther (read_exact n s2)) λ (_, s3). λ q. cc

  read_host-IsOther : (atyp : ℕ) (s : List ℕ) → IsOther (read_host atyp s)
  unfolding read_host read_ipv4 read_domain read_ipv6
  read_host-IsOther atyp s =
      let ipv4 : IsOther (read_ipv4 s) =
        bind-IsOther _ _ (io-IsOther (read_exact 4 s)) λ (_, s1). λ q. cc in
      let ipv6 : IsOther (read_ipv6 s) =
        bind-IsOther _ _ (io-IsOther (read_exact 16 s)) λ (_, s1). λ q. cc in
      let domain : IsOther (read_domain s) =
        (bind-IsOther _ _ (io-IsOther (read_u8 s)) λ (len, s1).
          bind-IsOther _ _ (io-IsOther (read_exact len s1)) λ (buf, s2).
            bind-IsOther _ (λ _. ok (buf, s2)) (fail_if-IsOther _ invalid_domain (λ q. cc))
              (λ _ q. cc)) in
      elim (Bool-cases (nat_eq atyp 1)) [
        | inl e ↦ λ q. ipv4 (ground arith)
        | inr e ↦ elim (Bool-cases (nat_eq atyp 3)) [
          | inl e' ↦ λ q. domain (ground arith)
          | inr e' ↦ elim (Bool-cases (nat_eq atyp 4)) [
            | inl e'' ↦ λ q. ipv6 (ground arith)
            | inr e'' ↦ λ q. absurd (ground arith)
          ]
        ]
      ]

  read_request-IsOther : (s : List ℕ) → IsOther (read_request s)
  unfolding read_request
  read_request-IsOther s = bind-IsOther _ _ (io-IsOther (read_u8 s)) λ (ver, s1).
      bind-IsOther _ _ (io-IsOther (read_u8 s1)) λ (cmd, s2).
        bind-IsOther _ _ (io-IsOther (read_u8 s2)) λ (_, s3).
          bind-IsOther _ _ (io-IsOther (read_u8 s3)) λ (atyp, s4).
            bind-IsOther _ _ (fail_if-IsOther _ (only_connect cmd) (λ q. cc)) λ _.
              bind-IsOther _ _ (read_host-IsOther atyp s4)
                λ (host, s5). bind-IsOther _ _ (io-IsOther (read_u16 s5)) λ (port, s6). λ q. cc

module _ (connects : List ℕ → ℕ → Bool) where
  -- Whatever the bytes of a client are, what it asks for is never refused by the header of the tunnel.
  pub never_refused :
      (s : List ℕ) (x : IoError)
      → IsBytes s
      → (handle_client connects s).outcome ≢ err (destination_refused x)
  unfolding handle_client open_tunnel
  never_refused s x b h = elim (Result-cases (read_greeting s)) [
    | inr (y, e) ↦ read_greeting-IsOther x s (ground arith)
    | inl (s1, e) ↦ elim (Result-cases (read_request s1)) [
      | inr (y, e') ↦ read_request-IsOther x s1 (ground arith)
      | inl (((host, port), left), e') ↦
          let (fits, _) =
            read_request-IsHost s1 host port left (read_greeting-IsBytes s s1 b e) e' in
          let (sent, e'') = write-IsHost host port fits in absurd (ground arith)
    ]
  ]
