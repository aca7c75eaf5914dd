-- ===== src/Socks/Host.antt =====
-- The hosts that a SOCKS client can ask for (apps/client-daemon/src/socks.rs).
use vpn.Prelude.{
  ℕ, ◌≤◌, ◌≡◌, ap, inl, inr, true, not, ◌||◌, List, [], ◌∷◌, length, take, length-take, ok, map_err,
  fail_if, nat_eq, arith, u16_max, Bool-cases, bind-ok, ok-injective, subst,
}
use vpn.Common.Framing.{is_utf8, IsAscii-is_utf8, read_u8, read_u16, read_exact}
use vpn.Common.Framing.RoundTrip.{IsBytes}
use vpn.Common.Framing.Reading.{IsBytes-take, read_u16-IsBytes, read_exact-IsBytes, map_err-ok}
use vpn.Socks.Address.Text.{IsText, ipv4_to_string-IsShort, ipv6_to_string-IsText}
use vpn.Socks.Address.{ipv4_to_string, ipv6_to_string}
use vpn.Socks.{
  io, only_connect, invalid_domain, read_ipv4, read_domain, read_ipv6, read_host, read_request,
}

-- a host that a header can carry
abbrev pub IsHost : List ℕ → Type 0
IsHost host = (is_utf8 host ≡ true) × (length host ≤ 255)

pub IsText-IsHost : (host : List ℕ) → IsText 255 host → IsHost host
IsText-IsHost host t = (IsAscii-is_utf8 host t.0, t.1)

-- what was read: so many bytes, and bytes are left
pub read_exact-read :
    (n : ℕ) (s buf rest : List ℕ)
    → IsBytes s
    → map_err io (read_exact n s) ≡ ok (buf, rest)
    → IsBytes buf × (length buf ≡ n) × IsBytes rest
unfolding read_exact
read_exact-read n s buf rest b h =
    let e : read_exact n s ≡ ok (buf, rest) = map_err-ok io (read_exact n s) h in
    let same : take n s ≡ buf = ground arith in
    (
      subst IsBytes same (IsBytes-take n s b),
      ground (arith, length-take n s),
      read_exact-IsBytes n s (buf, rest) b e,
    )

read_ipv4-IsHost :
    (s host rest : List ℕ) → IsBytes s → read_ipv4 s ≡ ok (host, rest) → IsHost host × IsBytes rest
unfolding read_ipv4
read_ipv4-IsHost s host rest b h =
    let ((buf, s1), e, h1) = bind-ok (map_err io (read_exact 4 s)) _ h in
    let (bytes, len, left) = read_exact-read 4 s buf s1 b e in
    let same : ◌≡◌ {A = List ℕ × List ℕ} (ipv4_to_string buf, s1) (host, rest) = ok-injective h1 in
    (
      subst IsHost (ap (λ r. r.0) same)
          (IsText-IsHost (ipv4_to_string buf) (ipv4_to_string-IsShort buf bytes len)),
      subst IsBytes (ap (λ r. r.1) same) left,
    )

read_ipv6-IsHost :
    (s host rest : List ℕ) → IsBytes s → read_ipv6 s ≡ ok (host, rest) → IsHost host × IsBytes rest
unfolding read_ipv6
read_ipv6-IsHost s host rest b h =
    let ((buf, s1), e, h1) = bind-ok (map_err io (read_exact 16 s)) _ h in
    let (bytes, len, left) = read_exact-read 16 s buf s1 b e in
    let same : ◌≡◌ {A = List ℕ × List ℕ} (ipv6_to_string buf, s1) (host, rest) = ok-injective h1 in
    (
      subst IsHost (ap (λ r. r.0) same)
          (IsText-IsHost (ipv6_to_string buf) (ipv6_to_string-IsText buf bytes len)),
      subst IsBytes (ap (λ r. r.1) same) left,
    )

pub read_byte :
    (s : List ℕ) (v : ℕ) (s' : List ℕ)
    → IsBytes s
    → map_err io (read_u8 s) ≡ ok (v, s')
    → (v ≤ 255) × IsBytes s'
unfolding read_u8
read_byte [] v s' b h = absurd (cc)
read_byte (x ∷ s) v s' b h =
    let same : s ≡ s' = ground arith in (ground (arith, b.0), subst IsBytes same b.1)

read_domain-IsHost :
    (s host rest : List ℕ)
    → IsBytes s
    → read_domain s ≡ ok (host, rest)
    → IsHost host × IsBytes rest
unfolding read_domain
read_domain-IsHost s host rest b h =
    let ((len, s1), e, h1) = bind-ok (map_err io (read_u8 s)) _ h in
    let ((buf, s2), e', h2) = bind-ok (map_err io (read_exact len s1)) _ h1 in
    let (_, text, h3) = bind-ok (fail_if (not (is_utf8 buf)) invalid_domain) _ h2 in
    let (small, left) = read_byte s len s1 b e in
    let (_, exact, left') = read_exact-read len s1 buf s2 left e' in
    let same : ◌≡◌ {A = List ℕ × List ℕ} (buf, s2) (host, rest) = ok-injective h3 in
    (
      (
        ground (arith, ap is_utf8 (ap (λ r. r.0) same)),
        ground (arith, small, exact, ap length (ap (λ r. r.0) same)),
      ),
      subst IsBytes (ap (λ r. r.1) same) left',
    )

read_host-IsHost :
    (atyp : ℕ) (s host rest : List ℕ)
    → IsBytes s
    → read_host atyp s ≡ ok (host, rest)
    → IsHost host × IsBytes rest
unfolding read_host
read_host-IsHost atyp s host rest b h = elim (Bool-cases (nat_eq atyp 1)) [
  | inl e ↦ read_ipv4-IsHost s host rest b (ground arith)
  | inr e ↦ elim (Bool-cases (nat_eq atyp 3)) [
    | inl e' ↦ read_domain-IsHost s host rest b (ground arith)
    | inr e' ↦ elim (Bool-cases (nat_eq atyp 4)) [
      | inl e'' ↦ read_ipv6-IsHost s host rest b (ground arith)
      | inr e'' ↦ absurd (ground arith)
    ]
  ]
]

pub read_request-IsHost :
    (s host : List ℕ) (port : ℕ) (rest : List ℕ)
    → IsBytes s
    → read_request s ≡ ok ((host, port), rest)
    → IsHost host × (port ≤ u16_max)
unfolding read_request
read_request-IsHost s host port rest b h =
    let ((ver, s1), e1, h1) = bind-ok (map_err io (read_u8 s)) _ h in
    let ((cmd, s2), e2, h2) = bind-ok (map_err io (read_u8 s1)) _ h1 in
    let ((rsv, s3), e3, h3) = bind-ok (map_err io (read_u8 s2)) _ h2 in
    let ((atyp, s4), e4, h4) = bind-ok (map_err io (read_u8 s3)) _ h3 in
    let (_, _, h5) =
      bind-ok (fail_if (not (nat_eq ver 5) || not (nat_eq cmd 1)) (only_connect cmd)) _ h4 in
    let ((name, s5), e5, h6) = bind-ok (read_host atyp s4) _ h5 in
    let ((p, s6), e6, h7) = bind-ok (map_err io (read_u16 s5)) _ h6 in
    let b1 = (read_byte s ver s1 b e1).1 in
    let b2 = (read_byte s1 cmd s2 b1 e2).1 in
    let b3 = (read_byte s2 rsv s3 b2 e3).1 in
    let b4 = (read_byte s3 atyp s4 b3 e4).1 in
    let (text, b5) = read_host-IsHost atyp s4 name s5 b4 e5 in
    let (small, _) = read_u16-IsBytes s5 p s6 b5 (map_err-ok io (read_u16 s5) e6) in
    let same : ◌≡◌ {A = (List ℕ × ℕ) × List ℕ} ((name, p), s6) ((host, port), rest) =
      ok-injective h7 in
    (
      subst IsHost (ap (λ r. r.0.0) same) text,
      subst (λ n. n ≤ u16_max) (ap (λ r. r.0.1) same) small,
    )
