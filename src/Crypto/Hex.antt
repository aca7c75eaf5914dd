-- ===== src/Crypto/Hex.antt =====
-- What crates/crypto uses of the `hex` crate, as an interface, and `str::trim` of ASCII text.
use vpn.Prelude.{
  ℕ, ◌≡◌, refl, ap, Bool, true, false, ◌&&◌, ◌||◌, leb, nat_eq, if◌then◌else◌, List, [], ◌∷◌,
  Option, some,
}

pub record HexCodec : Type 0 where
  pub encode : List ℕ → List ℕ
  pub decode : List ℕ → Option (List ℕ)

-- space, tab, line feed, vertical tab, form feed and carriage return
unfoldable pub is_white : ℕ → Bool
is_white c = nat_eq c 32 || (leb 9 c && leb c 13)

unfoldable pub trim_start : List ℕ → List ℕ
trim_start [] = []
trim_start (c ∷ cs) = let rest = trim_start cs in if is_white c then rest else c ∷ cs

is_nil : List ℕ → Bool
is_nil [] = true
is_nil _ = false

unfoldable pub trim_end : List ℕ → List ℕ
unfolding is_nil
trim_end [] = []
trim_end (c ∷ cs) = let rest = trim_end cs in if is_white c && is_nil rest then [] else c ∷ rest

unfoldable pub trim : List ℕ → List ℕ
unfolding trim_start trim_end
trim s = trim_end (trim_start s)

-- No character is white space.
abbrev pub IsSolid : List ℕ → Type 0
IsSolid [] = Unit {0}
IsSolid (c ∷ cs) = (is_white c ≡ false) × IsSolid cs

-- Decoding undoes encoding, and hex digits are no white space.
pub record HexLaws (x : HexCodec) : Type 0 where
  pub decode-encode : (bs : List ℕ) → x.decode (x.encode bs) ≡ some bs
  pub encode-IsSolid : (bs : List ℕ) → IsSolid (x.encode bs)

trim_start-IsSolid : (s : List ℕ) → IsSolid s → trim_start s ≡ s
unfolding trim_start
trim_start-IsSolid [] h = refl
trim_start-IsSolid (c ∷ cs) h = rw h.0

trim_end-IsSolid : (s : List ℕ) → IsSolid s → trim_end s ≡ s
unfolding trim_end
trim_end-IsSolid [] h = refl
trim_end-IsSolid (c ∷ cs) h = rw h.0 (ap (λ r. c ∷ r) (trim_end-IsSolid cs h.1))

pub trim-IsSolid : (s : List ℕ) → IsSolid s → trim s ≡ s
unfolding trim
trim-IsSolid s h = rw (trim_start-IsSolid s h) (trim_end-IsSolid s h)
