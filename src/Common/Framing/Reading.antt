-- ===== src/Common/Framing/Reading.antt =====
-- What is read from a stream of bytes (crates/common/src/framing.rs).
use vpn.Prelude.{
  ℕ, ◌≤◌, ◌≡◌, ap, true, not, List, [], ◌∷◌, Result, ok, err, map_err, arith, u16_max, bind-ok,
  ok-injective, fail_if, nat_eq, ltb, drop, take, subst, zero, suc,
}
use vpn.Common.Framing.{
  invalid_data, unsupported_version, host_too_long, invalid_utf8, version, max_host_len, is_utf8,
  read_u8, read_u16, read_exact, read_destination,
}
use vpn.Common.Framing.RoundTrip.{IsBytes}

pub IsBytes-take : (n : ℕ) (s : List ℕ) → IsBytes s → IsBytes (take n s)
IsBytes-take zero s b = tt
IsBytes-take (suc n) [] b = tt
IsBytes-take (suc n) (x ∷ s) b = (b.0, IsBytes-take n s b.1)

pub IsBytes-drop : (n : ℕ) (s : List ℕ) → IsBytes s → IsBytes (drop n s)
IsBytes-drop zero s b = b
IsBytes-drop (suc n) [] b = b
IsBytes-drop (suc n) (x ∷ s) b = IsBytes-drop n s b.1

pub read_u8-IsBytes :
    (s : List ℕ) (v : ℕ) (s' : List ℕ) → IsBytes s → read_u8 s ≡ ok (v, s') → IsBytes s'
unfolding read_u8
read_u8-IsBytes [] v s' b h = absurd (cc)
read_u8-IsBytes (x ∷ s) v s' b h = let same : s ≡ s' = ground arith in subst IsBytes same b.1

pub read_u16-IsBytes :
    (s : List ℕ) (v : ℕ) (s' : List ℕ)
    → IsBytes s
    → read_u16 s ≡ ok (v, s')
    → (v ≤ u16_max) × IsBytes s'
unfolding read_u16
read_u16-IsBytes [] v s' b h = absurd (cc)
read_u16-IsBytes (x ∷ []) v s' b h = absurd (cc)
read_u16-IsBytes (x ∷ y ∷ s) v s' b h =
    let same : s ≡ s' = ground arith in (ground (arith, b.0, b.1.0), subst IsBytes same b.1.1)

pub read_exact-IsBytes :
    (n : ℕ) (s : List ℕ) (r : List ℕ × List ℕ) → IsBytes s → read_exact n s ≡ ok r → IsBytes r.1
unfolding read_exact
read_exact-IsBytes n s r b h =
    let same : drop n s ≡ r.1 = ground arith in subst IsBytes same (IsBytes-drop n s b)

-- what is read is text, and a port
pub read_destination-valid :
    (s host : List ℕ) (port : ℕ) (rest : List ℕ)
    → IsBytes s
    → read_destination s ≡ ok ((host, port), rest)
    → (is_utf8 host ≡ true) × (port ≤ u16_max)
unfolding read_destination
read_destination-valid s host port rest b h =
    let ((v, s1), e1, h1) = bind-ok (read_u8 s) _ h in
    let (_, _, h2) =
      bind-ok (fail_if (not (nat_eq v version)) (invalid_data (unsupported_version v))) _ h1 in
    let ((n, s2), e2, h3) = bind-ok (read_u16 s1) _ h2 in
    let (_, _, h4) = bind-ok (fail_if (ltb max_host_len n) (invalid_data (host_too_long n))) _ h3 in
    let ((name, s3), e3, h5) = bind-ok (read_exact n s2) _ h4 in
    let (_, utf8, h6) = bind-ok (fail_if (not (is_utf8 name)) (invalid_data invalid_utf8)) _ h5 in
    let ((p, s4), e4, h7) = bind-ok (read_u16 s3) _ h6 in
    let (_, b2) = read_u16-IsBytes s1 n s2 (read_u8-IsBytes s v s1 b e1) e2 in
    let (small, _) = read_u16-IsBytes s3 p s4 (read_exact-IsBytes n s2 (name, s3) b2 e3) e4 in
    let same : ◌≡◌ {A = (List ℕ × ℕ) × List ℕ} ((name, p), s4) ((host, port), rest) =
      ok-injective h7 in
    (ground (arith, ap is_utf8 (ap (λ r. r.0.0) same)), ground (arith, ap (λ r. r.0.1) same))

pub map_err-ok {ℓ κ ι} :
    {E : Type ℓ} {F : Type κ} {A : Type ι} (f : E → F) (r : Result E A) {a : A}
    → map_err f r ≡ ok a
    → r ≡ ok a
map_err-ok f (ok a) h = cc
map_err-ok f (err e) h = cc
