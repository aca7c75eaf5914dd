-- ===== src/Common/Framing/Decode.antt =====
-- What `decode_destination` returns on a buffer taken apart into its fields.
use native.Mathlib.Nat.{zero-add, suc-add}
use vpn.Prelude.{
  ℕ, zero, suc, ◌+◌, ◌-◌, ◌≤◌, ◌≡◌, ◌≢◌, refl, sym, ap, true, List, [], ◌∷◌, ◌++◌, length,
  get_elem?, some, ok, err, arith, if◌then◌else◌, ok_or, length-append, take-length-append, le→leb,
  subst, sym,
}
use vpn.Common.Framing.{
  invalid_utf8, error, panicked, version, max_host_len, from_be_bytes, byte_at, slice, decode_body,
  decode_destination, is_utf8,
}

-- The bytes of a header and what follows it, field by field.
abbrev pub header : ℕ → ℕ → ℕ → List ℕ → ℕ → ℕ → List ℕ → List ℕ
header v hi lo host p1 p2 rest = v ∷ hi ∷ lo ∷ (host ++ p1 ∷ p2 ∷ rest)

pub get_elem?-length {ℓ} :
    {A : Type ℓ} (xs ys : List A) (i : ℕ) → get_elem? (xs ++ ys) (length xs + i) ≡ get_elem? ys i
get_elem?-length [] ys i = rw zero-add
get_elem?-length (x ∷ xs) ys i = rw suc-add (get_elem?-length xs ys i)

module _ (v hi lo : ℕ) (host : List ℕ) (p1 p2 : ℕ) (rest : List ℕ) where
  length-header : length (header v hi lo host p1 p2 rest) ≡ 3 + length host + 2 + length rest
  length-header = omega (arith, length-append host (p1 ∷ p2 ∷ rest))

  slice-header : slice (header v hi lo host p1 p2 rest) 3 (3 + length host) ≡ ok host
  slice-header =
      let fits : 3 + length host ≤ length (header v hi lo host p1 p2 rest) =
        omega (arith, length-header) in
      let whole : 3 + length host - 3 ≡ length host = omega arith in
      rw (le→leb 3 (3 + length host) (omega arith), le→leb _ _ fits, whole)
        (ap ok (take-length-append host (p1 ∷ p2 ∷ rest)))

  byte_at-header :
      (i : ℕ)
      → byte_at (header v hi lo host p1 p2 rest) (3 + length host + i) ≡ byte_at (p1 ∷ p2 ∷ rest) i
  byte_at-header i =
      let e : 3 + length host + i ≡ suc (suc (suc (length host + i))) = omega arith in
      rw e (ap (λ o. ok_or o panicked) (get_elem?-length host (p1 ∷ p2 ∷ rest) i))

  pub decode_body-header : decode_body (header v hi lo host p1 p2 rest) (length host) ≡ (
      if is_utf8 host
      then ok (host, from_be_bytes p1 p2, 3 + length host + 2)
      else err (error invalid_utf8))
  unfolding decode_body
  decode_body-header = ground (arith, slice-header, byte_at-header 0, byte_at-header 1)

-- Every buffer with a long enough body is a header followed by a rest.
pub split_body :
    (n : ℕ) (body : List ℕ)
    → n + 2 ≤ length body
    → (host : List ℕ) × (p1 : ℕ) × (p2 : ℕ) × (rest : List ℕ) × (body ≡ host ++ p1 ∷ p2 ∷ rest)
      × (length host ≡ n)
split_body n [] h = absurd (omega arith)
split_body n (b ∷ []) h = absurd (omega arith)
split_body zero (b ∷ c ∷ body) h = ([], b, c, body, refl, refl)
split_body (suc n) (b ∷ c ∷ body) h =
    let (host, p1, p2, rest, e, l) = split_body n (c ∷ body) (omega arith) in
    (b ∷ host, p1, p2, rest, ap (λ t. b ∷ t) e, ap suc l)

module _ (hi lo : ℕ) (host : List ℕ) (p1 p2 : ℕ) (rest : List ℕ) where
  -- A whole header decodes to its fields, or to the error of the first field that is wrong.
  pub decode-header :
      from_be_bytes hi lo ≡ length host
      → length host ≤ max_host_len
      → decode_destination (header version hi lo host p1 p2 rest) ≡ (
          if is_utf8 host
          then ok (some (host, from_be_bytes p1 p2, 3 + length host + 2))
          else err (error invalid_utf8))
  unfolding decode_destination
  decode-header e l = ground (
    arith,
    decode_body-header version hi lo host p1 p2 rest,
    length-header version hi lo host p1 p2 rest,
  )

-- A buffer that decodes is a header, and its fields are the result.
pub record IsHeader (buf : List ℕ) (r : List ℕ × ℕ × ℕ) : Type 0 where
  pub hi : ℕ
  pub lo : ℕ
  pub p1 : ℕ
  pub p2 : ℕ
  pub rest : List ℕ
  pub shape : buf ≡ header version hi lo r.0 p1 p2 rest
  pub len_field : from_be_bytes hi lo ≡ length r.0
  pub len_fits : length r.0 ≤ max_host_len
  pub host_utf8 : is_utf8 r.0 ≡ true
  pub port_field : r.1 ≡ from_be_bytes p1 p2
  pub consumed : r.2 ≡ 3 + length r.0 + 2

module _ (hi lo : ℕ) (host : List ℕ) (p1 p2 : ℕ) (rest : List ℕ)
    (e : from_be_bytes hi lo ≡ length host) where
  abbrev fields : List ℕ × ℕ × ℕ
  fields = (host, from_be_bytes p1 p2, 3 + length host + 2)

  pub header-IsHeader :
      length host ≤ max_host_len
      → is_utf8 host ≡ true
      → IsHeader (header version hi lo host p1 p2 rest) fields
  header-IsHeader l u = record {
    hi = hi;
    lo = lo;
    p1 = p1;
    p2 = p2;
    rest = rest;
    shape = refl;
    len_field = e;
    len_fits = l;
    host_utf8 = u;
    port_field = refl;
    consumed = refl;
  }

  decode-fields :
      (r : List ℕ × ℕ × ℕ)
      → length host ≤ max_host_len
      → decode_destination (header version hi lo host p1 p2 rest) ≡ ok (some r)
      → (is_utf8 host ≡ true) × (fields ≡ r)
  decode-fields r l h = ground (arith, decode-header hi lo host p1 p2 rest e l)

  decoded_header :
      (r : List ℕ × ℕ × ℕ)
      → length host ≤ max_host_len
      → decode_destination (header version hi lo host p1 p2 rest) ≡ ok (some r)
      → IsHeader (header version hi lo host p1 p2 rest) r
  decoded_header r l h =
      let (u, p) = decode-fields r l h in
      subst (IsHeader (header version hi lo host p1 p2 rest)) p (header-IsHeader l u)

long_enough :
    (v hi lo : ℕ) (body : List ℕ) {r : List ℕ × ℕ × ℕ}
    → decode_destination (v ∷ hi ∷ lo ∷ body) ≡ ok (some r)
    → (v ≡ version) × (from_be_bytes hi lo ≤ max_host_len) × (from_be_bytes hi lo + 2 ≤ length body)
unfolding decode_destination
long_enough v hi lo body h = ground arith

decode-long :
    (buf : List ℕ) (r : List ℕ × ℕ × ℕ)
    → decode_destination buf ≡ ok (some r)
    → (v : ℕ) × (hi : ℕ) × (lo : ℕ) × (body : List ℕ) × (buf ≡ v ∷ hi ∷ lo ∷ body)
unfolding decode_destination
decode-long [] r h = cc
decode-long (v ∷ []) r h = ground arith
decode-long (v ∷ hi ∷ []) r h = ground arith
decode-long (v ∷ hi ∷ lo ∷ body) r h = (v, hi, lo, body, refl)

pub decode-IsHeader :
    (buf : List ℕ) (r : List ℕ × ℕ × ℕ) → decode_destination buf ≡ ok (some r) → IsHeader buf r
decode-IsHeader buf r h =
    let (v, hi, lo, body, e) = decode-long buf r h in
    let (is_v, fits, long) = long_enough v hi lo body (rw e at h) in
    let (host, p1, p2, rest, shape, l) = split_body (from_be_bytes hi lo) body long in
    let whole : buf ≡ header version hi lo host p1 p2 rest = cc in
    rw whole (decoded_header hi lo host p1 p2 rest (sym l) r (omega arith) (rw whole at h))

pub IsHeader-decode :
    (buf : List ℕ) (r : List ℕ × ℕ × ℕ) → IsHeader buf r → decode_destination buf ≡ ok (some r)
IsHeader-decode buf (host, port, n) i = rw i.shape (
    ground
      (arith, decode-header i.hi i.lo host i.p1 i.p2 i.rest i.len_field i.len_fits, i.host_utf8))

-- No position that the decoder reads is out of range.
pub decode_body-ne-panicked :
    (v hi lo : ℕ) (body : List ℕ) (n : ℕ)
    → n + 2 ≤ length body
    → decode_body (v ∷ hi ∷ lo ∷ body) n ≢ err panicked
decode_body-ne-panicked v hi lo body n long h =
    let (host, p1, p2, rest, shape, l) = split_body n body long in
    let same : decode_body (v ∷ hi ∷ lo ∷ body) n
        ≡ decode_body (header v hi lo host p1 p2 rest) (length host) =
      cc in
    ground (arith, same, decode_body-header v hi lo host p1 p2 rest)
