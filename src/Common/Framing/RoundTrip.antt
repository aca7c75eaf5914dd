-- ===== src/Common/Framing/RoundTrip.antt =====
-- Encoding and decoding a destination header are inverse, and the decoder takes bytes as they come.
use vpn.Prelude.{
  ℕ, ◌+◌, ◌/◌, ◌%◌, ◌≤◌, ◌<◌, ◌≡◌, ◌≢◌, refl, sym, ap, ◌∙◌, true, List, [], ◌∷◌, ◌++◌, length, take,
  none, some, ok, err, arith, length-append, append_assoc, take-length-append, u16_max, subst,
}
use vpn.Common.Framing.{
  panicked, version, max_host_len, from_be_bytes, decode_destination, encode_destination, is_utf8,
}
use vpn.Common.Framing.Decode.{
  header, IsHeader, decode-IsHeader, IsHeader-decode, decode_body-ne-panicked,
}

-- the bytes that `encode_destination` writes for a host that is short enough
encode-header :
    (host : List ℕ) (port : ℕ) {buf : List ℕ}
    → encode_destination host port ≡ ok buf
    → (length host ≤ max_host_len)
      × (buf
          ≡ header version
              (length host % 65536 / 256 % 256)
              (length host % 65536 % 256)
              host
              (port / 256 % 256)
              (port % 256)
              [])
unfolding encode_destination
encode-header host port h = ground arith

u16_bytes : (n : ℕ) → n ≤ u16_max → from_be_bytes (n / 256 % 256) (n % 256) ≡ n
u16_bytes n h = omega arith

pub header-append :
    (v hi lo : ℕ) (host : List ℕ) (p1 p2 : ℕ) (rest more : List ℕ)
    → header v hi lo host p1 p2 rest ++ more ≡ header v hi lo host p1 p2 (rest ++ more)
header-append v hi lo host p1 p2 rest more =
    ap (λ l. v ∷ hi ∷ lo ∷ l) (append_assoc host (p1 ∷ p2 ∷ rest) more)

IsHeader-append :
    (buf more : List ℕ) (r : List ℕ × ℕ × ℕ) → IsHeader buf r → IsHeader (buf ++ more) r
IsHeader-append buf more r i = record {
  hi = i.hi;
  lo = i.lo;
  p1 = i.p1;
  p2 = i.p2;
  rest = i.rest ++ more;
  shape = ap (λ b. b ++ more) i.shape ∙ header-append version i.hi i.lo r.0 i.p1 i.p2 i.rest more;
  len_field = i.len_field;
  len_fits = i.len_fits;
  host_utf8 = i.host_utf8;
  port_field = i.port_field;
  consumed = i.consumed;
}

encode-IsHeader :
    (host : List ℕ) (port : ℕ) (buf : List ℕ)
    → is_utf8 host ≡ true
    → port ≤ u16_max
    → encode_destination host port ≡ ok buf
    → IsHeader buf (host, port, length buf)
encode-IsHeader host port buf u p h =
    let (l, shape) = encode-header host port h in
    let len : length buf ≡ 3 + length host + 2 =
      omega (arith, ap length shape, length-append host (port / 256 % 256 ∷ port % 256 ∷ [])) in
    record {
      hi = length host % 65536 / 256 % 256;
      lo = length host % 65536 % 256;
      p1 = port / 256 % 256;
      p2 = port % 256;
      rest = [];
      shape = shape;
      len_field = omega arith;
      len_fits = l;
      host_utf8 = u;
      port_field = sym (u16_bytes port p);
      consumed = len;
    }

-- Whatever the bytes, the decoder reads no position outside of the buffer.
pub decode-ne-panicked : (buf : List ℕ) → decode_destination buf ≢ err panicked
unfolding decode_destination
decode-ne-panicked [] h = cc
decode-ne-panicked (v ∷ []) h = ground arith
decode-ne-panicked (v ∷ hi ∷ []) h = ground arith
decode-ne-panicked (v ∷ hi ∷ lo ∷ body) h =
    ground (arith, decode_body-ne-panicked v hi lo body (from_be_bytes hi lo))

-- An encoded destination, with any bytes behind it, decodes to the destination and to its length.
pub decode-encode :
    (host : List ℕ) (port : ℕ) (buf rest : List ℕ)
    → is_utf8 host ≡ true
    → port ≤ u16_max
    → encode_destination host port ≡ ok buf
    → decode_destination (buf ++ rest) ≡ ok (some (host, port, length buf))
decode-encode host port buf rest u p h =
    IsHeader-decode (buf ++ rest) (host, port, length buf)
      (IsHeader-append buf rest (host, port, length buf) (encode-IsHeader host port buf u p h))

-- A header that decodes still decodes, to the same, when more bytes arrive.
pub decode-append :
    (buf more : List ℕ) (r : List ℕ × ℕ × ℕ)
    → decode_destination buf ≡ ok (some r)
    → decode_destination (buf ++ more) ≡ ok (some r)
decode-append buf more r h =
    IsHeader-decode (buf ++ more) r (IsHeader-append buf more r (decode-IsHeader buf r h))

-- Every strict prefix of an encoded destination asks for more bytes.
pub decode-prefix :
    (host : List ℕ) (port : ℕ) (seen : List ℕ) (next : ℕ) (more : List ℕ)
    → encode_destination host port ≡ ok (seen ++ next ∷ more)
    → decode_destination seen ≡ ok none
unfolding decode_destination
decode-prefix host port [] next more h = refl
decode-prefix host port (v ∷ []) next more h = ground (arith, encode-header host port h)
decode-prefix host port (v ∷ hi ∷ []) next more h = ground (arith, encode-header host port h)
decode-prefix host port (v ∷ hi ∷ lo ∷ body) next more h =
    let (l, shape) = encode-header host port h in
    ground (
      arith,
      shape,
      ap length shape,
      l,
      length-append host (port / 256 % 256 ∷ port % 256 ∷ []),
      length-append body (next ∷ more),
    )

-- Every number in the list is a byte.
abbrev pub IsBytes : List ℕ → Type 0
IsBytes [] = Unit {0}
IsBytes (b ∷ bs) = (b < 256) × IsBytes bs

port_bytes :
    (host : List ℕ) (p1 p2 : ℕ) (rest : List ℕ)
    → IsBytes (host ++ p1 ∷ p2 ∷ rest)
    → (p1 < 256) × (p2 < 256)
port_bytes [] p1 p2 rest b = (b.0, b.1.0)
port_bytes (x ∷ host) p1 p2 rest b = port_bytes host p1 p2 rest b.1

take-header :
    (v hi lo : ℕ) (host : List ℕ) (p1 p2 : ℕ) (rest : List ℕ)
    → take (3 + length host + 2) (header v hi lo host p1 p2 rest) ≡ header v hi lo host p1 p2 []
take-header v hi lo host p1 p2 rest =
    let n : 3 + length host + 2 ≡ length (header v hi lo host p1 p2 []) =
      omega (arith, length-append host (p1 ∷ p2 ∷ [])) in
    rw n (
      ap (take (length (header v hi lo host p1 p2 [])))
        (sym (header-append v hi lo host p1 p2 [] rest))
      ∙ take-length-append (header v hi lo host p1 p2 []) rest)

header-encode :
    (hi lo : ℕ) (host : List ℕ) (p1 p2 : ℕ)
    → from_be_bytes hi lo ≡ length host
    → length host ≤ max_host_len
    → (hi < 256) × (lo < 256) × (p1 < 256) × (p2 < 256)
    → encode_destination host (from_be_bytes p1 p2) ≡ ok (header version hi lo host p1 p2 [])
unfolding encode_destination
header-encode hi lo host p1 p2 e l b = ground arith

-- What decodes is the encoding of its result: a header has no other spelling.
pub encode-decode :
    (buf host : List ℕ) (port n : ℕ)
    → IsBytes buf
    → decode_destination buf ≡ ok (some (host, port, n))
    → (n ≤ length buf) × (encode_destination host port ≡ ok (take n buf))
encode-decode buf host port n b h =
    let i = decode-IsHeader buf (host, port, n) h in
    let bs : IsBytes (header version i.hi i.lo host i.p1 i.p2 i.rest) = subst IsBytes i.shape b in
    let ports = port_bytes host i.p1 i.p2 i.rest bs.1.1.1 in
    let enc =
      header-encode i.hi i.lo host i.p1 i.p2 i.len_field i.len_fits
        (bs.1.0, bs.1.1.0, ports.0, ports.1) in
    let cut : take n buf ≡ header version i.hi i.lo host i.p1 i.p2 [] =
      rw (i.consumed, i.shape) (take-header version i.hi i.lo host i.p1 i.p2 i.rest) in
    (
      omega (arith, ap length i.shape, i.consumed, length-append host (i.p1 ∷ i.p2 ∷ i.rest)),
      rw (i.port_field, cut) enc,
    )
