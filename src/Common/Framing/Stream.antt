-- ===== src/Common/Framing/Stream.antt =====
-- Reading a header from a stream agrees with decoding the bytes that the stream holds.
use native.Mathlib.Decide.{ℕ_discrete, dec_le}
use vpn.Prelude.{
  ℕ, ◌+◌, ◌≤◌, ◌≡◌, ◌⊎◌, inl, inr, refl, sym, ap, ◌∙◌, true, List, [], ◌∷◌, ◌++◌, length, drop,
  Option, none, some, Result, ok, err, arith, length-append, le→leb, take-length-append,
  drop-length-append, u16_max, if◌then◌else◌, subst, Bool-cases, ◌≢◌, ◌<◌, nat_eq, length-drop,
}
use vpn.Common.Framing.{
  version, max_host_len, from_be_bytes, decode_destination, read_destination, is_utf8, read_exact,
  host_too_long, unsupported_version, IoError, unexpected_eof, invalid_data, invalid_utf8, Fault,
  error, panicked, read_u16, FramingError, encode_destination, write_destination,
}
use vpn.Common.Framing.Decode.{header, decode-header, split_body}
use vpn.Common.Framing.RoundTrip.{decode-encode, header-append}

pub read_exact-append :
    (host rest : List ℕ) → read_exact (length host) (host ++ rest) ≡ ok (host, rest)
unfolding read_exact
read_exact-append host rest =
    rw (le→leb (length host) (length (host ++ rest)) (omega (arith, length-append host rest))) (
      ap (λ (p : List ℕ × List ℕ). ok p)
        (λ i. (take-length-append host rest i, drop-length-append host rest i)))

-- How a read from a stream that holds `s` and then ends relates to decoding `s`: a header and its
-- rest, the same error, or, where the decoder waits for more bytes, an end of the stream that is too
-- early or a host that is already known to be no text.
abbrev pub Agrees :
    Result Fault (Option (List ℕ × ℕ × ℕ))
    → Result IoError ((List ℕ × ℕ) × List ℕ)
    → List ℕ
    → Type 0
Agrees (ok none) r s = (r ≡ err unexpected_eof) ⊎ (r ≡ err (invalid_data invalid_utf8))
Agrees (ok (some (host, port, n))) r s = r ≡ ok ((host, port), drop n s)
Agrees (err (error e)) r s = r ≡ err (invalid_data e)
Agrees (err panicked) r s = ⊥

Agrees-of :
    {d : Result Fault (Option (List ℕ × ℕ × ℕ))} (s : List ℕ)
    → decode_destination s ≡ d
    → Agrees d (read_destination s) s
    → Agrees (decode_destination s) (read_destination s) s
Agrees-of s e a = subst (λ d. Agrees d (read_destination s) s) (sym e) a

drop-header :
    (v hi lo : ℕ) (host : List ℕ) (p1 p2 : ℕ) (rest : List ℕ)
    → drop (3 + length host + 2) (header v hi lo host p1 p2 rest) ≡ rest
drop-header v hi lo host p1 p2 rest =
    let n : 3 + length host + 2 ≡ length (header v hi lo host p1 p2 []) =
      omega (arith, length-append host (p1 ∷ p2 ∷ [])) in
    rw n (
      ap (drop (length (header v hi lo host p1 p2 [])))
        (sym (header-append v hi lo host p1 p2 [] rest))
      ∙ drop-length-append (header v hi lo host p1 p2 []) rest)

read_u16-short : (s : List ℕ) → length s ≤ 1 → read_u16 s ≡ err unexpected_eof
unfolding read_u16
read_u16-short [] h = refl
read_u16-short (b ∷ []) h = refl
read_u16-short (b ∷ c ∷ s) h = absurd (omega arith)

module _ (hi lo : ℕ) (host : List ℕ) (p1 p2 : ℕ) (rest : List ℕ) where
  read-header :
      from_be_bytes hi lo ≡ length host
      → length host ≤ max_host_len
      → read_destination (header version hi lo host p1 p2 rest) ≡ (
          if is_utf8 host
          then ok ((host, from_be_bytes p1 p2), rest)
          else err (invalid_data invalid_utf8))
  unfolding read_destination
  read-header e l = ground (arith, read_exact-append host (p1 ∷ p2 ∷ rest), e, l)

  Agrees-header :
      from_be_bytes hi lo ≡ length host
      → length host ≤ max_host_len
      → let s = header version hi lo host p1 p2 rest in
        Agrees (decode_destination s) (read_destination s) s
  Agrees-header e l =
      let s = header version hi lo host p1 p2 rest in
      let d = decode-header hi lo host p1 p2 rest e l in
      let r = read-header e l in
      elim (Bool-cases (is_utf8 host)) [
        | inl u ↦ Agrees-of s (rw u at d) (
            rw u at r
            ∙ ap (λ t. ok ((host, from_be_bytes p1 p2), t))
                (sym (drop-header version hi lo host p1 p2 rest)))
        | inr u ↦ Agrees-of s (rw u at d) (rw u at r)
      ]

read-long :
    (v hi lo : ℕ) (body : List ℕ)
    → from_be_bytes hi lo + 2 ≤ length body
    → v ≡ version
    → from_be_bytes hi lo ≤ max_host_len
    → Agrees
        (decode_destination (v ∷ hi ∷ lo ∷ body))
        (read_destination (v ∷ hi ∷ lo ∷ body))
        (v ∷ hi ∷ lo ∷ body)
read-long v hi lo body long is_v fits =
    let (host, p1, p2, rest, shape, l) = split_body (from_be_bytes hi lo) body long in
    let whole : header version hi lo host p1 p2 rest ≡ v ∷ hi ∷ lo ∷ body = cc in
    subst (λ s. Agrees (decode_destination s) (read_destination s) s) whole
      (Agrees-header hi lo host p1 p2 rest (sym l) (omega arith))

-- A version or a length that is refused is refused alike.
decode-refused :
    (v hi lo : ℕ) (body : List ℕ)
    → (v ≢ version) ⊎ (max_host_len < from_be_bytes hi lo)
    → (e : FramingError) × (decode_destination (v ∷ hi ∷ lo ∷ body) ≡ err (error e))
      × (read_destination (v ∷ hi ∷ lo ∷ body) ≡ err (invalid_data e))
unfolding decode_destination read_destination
decode-refused v hi lo body h = elim (Bool-cases (nat_eq v version)) [
  | inl is_v ↦ (host_too_long (from_be_bytes hi lo), ground arith, ground arith)
  | inr not_v ↦ (unsupported_version v, ground arith, ground arith)
]

decode-short :
    (hi lo : ℕ) (body : List ℕ)
    → length body < from_be_bytes hi lo + 2
    → from_be_bytes hi lo ≤ max_host_len
    → decode_destination (version ∷ hi ∷ lo ∷ body) ≡ ok none
unfolding decode_destination
decode-short hi lo body short fits = ground arith

read-short :
    (hi lo : ℕ) (body : List ℕ)
    → length body < from_be_bytes hi lo + 2
    → from_be_bytes hi lo ≤ max_host_len
    → let r = read_destination (version ∷ hi ∷ lo ∷ body) in
      (r ≡ err unexpected_eof) ⊎ (r ≡ err (invalid_data invalid_utf8))
unfolding read_destination
read-short hi lo body short fits = ground (
  arith,
  read_u16-short (drop (from_be_bytes hi lo) body),
  length-drop (from_be_bytes hi lo) body,
)

read-nothing : Agrees (decode_destination []) (read_destination []) []
unfolding decode_destination read_destination
read-nothing = inl refl

-- at most two bytes: only the version is seen
read-brief :
    (v : ℕ) (more : List ℕ)
    → length more ≤ 1
    → Agrees (decode_destination (v ∷ more)) (read_destination (v ∷ more)) (v ∷ more)
unfolding decode_destination read_destination
read-brief v [] h = elim (Bool-cases (nat_eq v version)) [
  | inl e ↦ rw e (inl refl)
  | inr e ↦ rw e refl
]
read-brief v (hi ∷ []) h = elim (Bool-cases (nat_eq v version)) [
  | inl e ↦ rw e (inl refl)
  | inr e ↦ rw e refl
]
read-brief v (hi ∷ lo ∷ more) h = absurd (omega arith)

read-refused :
    (v hi lo : ℕ) (body : List ℕ)
    → (v ≢ version) ⊎ (max_host_len < from_be_bytes hi lo)
    → let s = v ∷ hi ∷ lo ∷ body in Agrees (decode_destination s) (read_destination s) s
read-refused v hi lo body h =
    let (e, d, r) = decode-refused v hi lo body h in Agrees-of (v ∷ hi ∷ lo ∷ body) d r

read-waiting :
    (v hi lo : ℕ) (body : List ℕ)
    → v ≡ version
    → from_be_bytes hi lo ≤ max_host_len
    → length body < from_be_bytes hi lo + 2
    → let s = v ∷ hi ∷ lo ∷ body in Agrees (decode_destination s) (read_destination s) s
read-waiting v hi lo body is_v fits short =
    subst
      (λ w.
        Agrees (decode_destination (w ∷ hi ∷ lo ∷ body)) (read_destination (w ∷ hi ∷ lo ∷ body))
          (w ∷ hi ∷ lo ∷ body))
      (sym is_v)
      (Agrees-of (version ∷ hi ∷ lo ∷ body) (decode-short hi lo body short fits)
        (read-short hi lo body short fits))

-- Reading a header from a stream gives what decoding its bytes gives.
pub read-decode : (s : List ℕ) → Agrees (decode_destination s) (read_destination s) s
read-decode [] = read-nothing
read-decode (v ∷ []) = read-brief v [] (omega arith)
read-decode (v ∷ hi ∷ []) = read-brief v (hi ∷ []) (omega arith)
read-decode (v ∷ hi ∷ lo ∷ body) = elim (ℕ_discrete v version) [
  | no not_v ↦ read-refused v hi lo body (inl not_v)
  | yes is_v ↦ elim (dec_le (from_be_bytes hi lo) max_host_len) [
    | no long ↦ read-refused v hi lo body (inr (omega arith))
    | yes fits ↦ elim (dec_le (from_be_bytes hi lo + 2) (length body)) [
      | yes long ↦ read-long v hi lo body long is_v fits
      | no short ↦ read-waiting v hi lo body is_v fits (omega arith)
    ]
  ]
]

write-encode :
    (host : List ℕ) (port : ℕ) {sent : List ℕ}
    → write_destination [] host port ≡ ok sent
    → encode_destination host port ≡ ok sent
unfolding write_destination
write-encode host port h = ground arith

-- A destination that one side writes is the one that the other side reads, and the stream goes on
-- with the bytes that follow the header.
pub read-write :
    (host : List ℕ) (port : ℕ) (sent rest : List ℕ)
    → is_utf8 host ≡ true
    → port ≤ u16_max
    → write_destination [] host port ≡ ok sent
    → read_destination (sent ++ rest) ≡ ok ((host, port), rest)
read-write host port sent rest u p h =
    let s = sent ++ rest in
    let decoded = decode-encode host port sent rest u p (write-encode host port h) in
    subst (λ d. Agrees d (read_destination s) s) decoded (read-decode s)
    ∙ ap (λ t. ok ((host, port), t)) (drop-length-append sent rest)
