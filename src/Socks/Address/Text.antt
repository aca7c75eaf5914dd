-- ===== src/Socks/Address/Text.antt =====
-- The printed addresses are short ASCII text (apps/client-daemon/src/socks.rs).
use vpn.Prelude.{
  Bool, true, false, if◌then◌else◌, ℕ, zero, suc, ◌+◌, ◌*◌, ◌/◌, ◌%◌, ◌≤◌, ◌<◌, ◌≡◌, refl, ltb,
  List, [], ◌∷◌, ◌++◌, take, drop, length, length-append, length-take, length-drop, arith,
}
use vpn.Common.Framing.{IsAscii}
use vpn.Common.Framing.RoundTrip.{IsBytes}
use vpn.Common.Framing.Reading.{IsBytes-drop}
use vpn.Socks.Address.{
  decimal, ipv4_to_string, hex_digit, hexadecimal, segments, colons, Span, longest_zeroes, no_span,
  compressed, ipv6_to_string, is_ipv4_mapped,
}

IsAscii-append : (xs ys : List ℕ) → IsAscii xs → IsAscii ys → IsAscii (xs ++ ys)
IsAscii-append [] ys a b = b
IsAscii-append (x ∷ xs) ys a b = (a.0, IsAscii-append xs ys a.1 b)

-- the numbers of a list are words of 16 bits
abbrev IsWords : List ℕ → Type 0
IsWords [] = Unit {0}
IsWords (s ∷ ss) = (s ≤ 65535) × IsWords ss

-- at most `k` bytes of ASCII
abbrev pub IsText : ℕ → List ℕ → Type 0
IsText k xs = IsAscii xs × (length xs ≤ k)

IsText-append : (j k : ℕ) (xs ys : List ℕ) → IsText j xs → IsText k ys → IsText (j + k) (xs ++ ys)
IsText-append j k xs ys a b =
    (IsAscii-append xs ys a.0 b.0, omega (arith, length-append xs ys, a.1, b.1))

if-IsText :
    (k : ℕ) (c : Bool) (xs ys : List ℕ)
    → (c ≡ true → IsText k xs)
    → (c ≡ false → IsText k ys)
    → IsText k (if c then xs else ys)
if-IsText k true xs ys a b = a refl
if-IsText k false xs ys a b = b refl

decimal-IsText : (n : ℕ) → n < 256 → IsText 3 (decimal n)
unfolding decimal
decimal-IsText n small =
    if-IsText 3 (ltb n 10) _ _ (λ e. ((ground arith, tt), omega arith))
      λ e.
        if-IsText 3 (ltb n 100) _ _ (λ e'. ((ground arith, (omega arith, tt)), omega arith))
          (λ e'. ((omega arith, (omega arith, (omega arith, tt))), omega arith))

ipv4_to_string-IsText : (bs : List ℕ) → IsBytes bs → IsText (4 * length bs) (ipv4_to_string bs)
unfolding ipv4_to_string
ipv4_to_string-IsText [] b = (tt, omega arith)
ipv4_to_string-IsText (x ∷ []) b = let t = decimal-IsText x b.0 in (t.0, omega (arith, t.1))
ipv4_to_string-IsText (x ∷ y ∷ bs) b =
    let t = decimal-IsText x b.0 in
    let r = ipv4_to_string-IsText (y ∷ bs) b.1 in
    let dot : IsText (1 + 4 * length (y ∷ bs)) (46 ∷ ipv4_to_string (y ∷ bs)) =
      ((omega arith, r.0), omega (arith, r.1)) in
    let all =
      IsText-append 3 (1 + 4 * length (y ∷ bs)) (decimal x) (46 ∷ ipv4_to_string (y ∷ bs)) t dot in
    (all.0, omega (arith, all.1))

hex_digit_small : (n : ℕ) → n < 16 → hex_digit n ≤ 0x7f
unfolding hex_digit
hex_digit_small n small = ground arith

hexadecimal-IsText : (n : ℕ) → n ≤ 65535 → IsText 4 (hexadecimal n)
unfolding hexadecimal
hexadecimal-IsText n small =
    if-IsText 4 (ltb n 0x10) _ _ (λ e. ((hex_digit_small n (ground arith), tt), omega arith))
      λ e.
        if-IsText 4 (ltb n 0x100) _ _
          (λ e'. (
            (
              hex_digit_small (n / 0x10) (ground arith),
              (hex_digit_small (n % 0x10) (omega arith), tt),
            ),
            omega arith,
          ))
          λ e'.
            if-IsText 4 (ltb n 0x1000) _ _
              (λ e''. (
                (
                  hex_digit_small (n / 0x100) (ground arith),
                  (
                    hex_digit_small (n / 0x10 % 0x10) (omega arith),
                    (hex_digit_small (n % 0x10) (omega arith), tt),
                  ),
                ),
                omega arith,
              ))
              (λ e''. (
                (
                  hex_digit_small (n / 0x1000) (omega arith),
                  (
                    hex_digit_small (n / 0x100 % 0x10) (omega arith),
                    (
                      hex_digit_small (n / 0x10 % 0x10) (omega arith),
                      (hex_digit_small (n % 0x10) (omega arith), tt),
                    ),
                  ),
                ),
                omega arith,
              ))

colons-IsText : (ss : List ℕ) → IsWords ss → IsText (5 * length ss) (colons ss)
unfolding colons
colons-IsText [] w = (tt, omega arith)
colons-IsText (s ∷ []) w = let t = hexadecimal-IsText s w.0 in (t.0, omega (arith, t.1))
colons-IsText (s ∷ t ∷ ss) w =
    let h = hexadecimal-IsText s w.0 in
    let r = colons-IsText (t ∷ ss) w.1 in
    let colon : IsText (1 + 5 * length (t ∷ ss)) (58 ∷ colons (t ∷ ss)) =
      ((omega arith, r.0), omega (arith, r.1)) in
    let all =
      IsText-append 4 (1 + 5 * length (t ∷ ss)) (hexadecimal s) (58 ∷ colons (t ∷ ss)) h colon in
    (all.0, omega (arith, all.1))

IsWords-take : (n : ℕ) (ss : List ℕ) → IsWords ss → IsWords (take n ss)
IsWords-take zero ss w = tt
IsWords-take (suc n) [] w = tt
IsWords-take (suc n) (s ∷ ss) w = (w.0, IsWords-take n ss w.1)

IsWords-drop : (n : ℕ) (ss : List ℕ) → IsWords ss → IsWords (drop n ss)
IsWords-drop zero ss w = w
IsWords-drop (suc n) [] w = tt
IsWords-drop (suc n) (s ∷ ss) w = IsWords-drop n ss w.1

segments-IsWords :
    (bs : List ℕ) → IsBytes bs → IsWords (segments bs) × (length (segments bs) ≤ length bs)
unfolding segments
segments-IsWords [] b = (tt, omega arith)
segments-IsWords (x ∷ []) b = (tt, omega arith)
segments-IsWords (x ∷ y ∷ bs) b =
    let r = segments-IsWords bs b.1.1 in ((omega (arith, b.0, b.1.0), r.0), omega (arith, r.1))

compressed-IsText :
    (z : Span) (ss : List ℕ) → IsWords ss → IsText (10 * length ss + 2) (compressed z ss)
unfolding compressed
compressed-IsText z ss w =
    if-IsText (10 * length ss + 2) (ltb 1 z.len) _ _
      (λ e.
        let a = colons-IsText (take z.start ss) (IsWords-take z.start ss w) in
        let b = colons-IsText (drop (z.start + z.len) ss) (IsWords-drop (z.start + z.len) ss w) in
        let tail : IsText (2 + 5 * length (drop (z.start + z.len) ss))
            (58 ∷ 58 ∷ colons (drop (z.start + z.len) ss)) =
          ((omega arith, (omega arith, b.0)), omega (arith, b.1)) in
        let all =
          IsText-append (5 * length (take z.start ss)) (2 + 5 * length (drop (z.start + z.len) ss))
            (colons (take z.start ss)) _ a tail in
        (all.0, omega (arith, all.1, length-take z.start ss, length-drop (z.start + z.len) ss)))
      (λ e. let a = colons-IsText ss w in (a.0, omega (arith, a.1)))

pub ipv6_to_string-IsText :
    (bs : List ℕ) → IsBytes bs → length bs ≡ 16 → IsText 255 (ipv6_to_string bs)
unfolding ipv6_to_string
ipv6_to_string-IsText bs b len =
    let s = segments-IsWords bs b in
    if-IsText 255 (is_ipv4_mapped (segments bs)) _ _
      (λ e.
        let r = ipv4_to_string-IsText (drop 12 bs) (IsBytes-drop 12 bs b) in
        (
          (
            omega arith,
            (
              omega arith,
              (omega arith, (omega arith, (omega arith, (omega arith, (omega arith, r.0))))),
            ),
          ),
          omega (arith, r.1, length-drop 12 bs),
        ))
      (λ e.
        let z = longest_zeroes 0 no_span no_span (segments bs) in
        let r = compressed-IsText z (segments bs) s.0 in (r.0, omega (arith, r.1, s.1)))

pub ipv4_to_string-IsShort :
    (bs : List ℕ) → IsBytes bs → length bs ≡ 4 → IsText 255 (ipv4_to_string bs)
ipv4_to_string-IsShort bs b len = let r = ipv4_to_string-IsText bs b in (r.0, omega (arith, r.1))
