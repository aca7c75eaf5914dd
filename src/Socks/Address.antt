-- ===== src/Socks/Address.antt =====
-- The text of an address, as `Ipv4Addr` and `Ipv6Addr` of the standard library print it
-- (apps/client-daemon/src/socks.rs).
pub mod Text
use vpn.Prelude.{
  ℕ, zero, suc, ◌+◌, ◌*◌, ◌-◌, ◌/◌, ◌%◌, Bool, ◌&&◌, if◌then◌else◌, nat_eq, ltb, List, [], ◌∷◌,
  ◌++◌, take, drop, length, list_beq, nat_Eq,
}

-- a byte in decimal
unfoldable pub decimal : ℕ → List ℕ
decimal n =
    if ltb n 10
    then (48 + n) ∷ []
    else if ltb n 100
    then (48 + n / 10) ∷ (48 + n % 10) ∷ []
    else (48 + n / 100) ∷ (48 + n / 10 % 10) ∷ (48 + n % 10) ∷ []

unfoldable pub ipv4_to_string : List ℕ → List ℕ
unfolding decimal
ipv4_to_string [] = []
ipv4_to_string (b ∷ []) = decimal b
ipv4_to_string (b ∷ c ∷ bs) = decimal b ++ 46 ∷ ipv4_to_string (c ∷ bs)

unfoldable pub hex_digit : ℕ → ℕ
hex_digit n = if ltb n 10 then 48 + n else 87 + n

-- a segment in hexadecimal, without leading zeros
unfoldable pub hexadecimal : ℕ → List ℕ
unfolding hex_digit
hexadecimal n =
    if ltb n 0x10
    then hex_digit n ∷ []
    else if ltb n 0x100
    then hex_digit (n / 0x10) ∷ hex_digit (n % 0x10) ∷ []
    else if ltb n 0x1000
    then hex_digit (n / 0x100) ∷ hex_digit (n / 0x10 % 0x10) ∷ hex_digit (n % 0x10) ∷ []
    else hex_digit (n / 0x1000)
      ∷ hex_digit (n / 0x100 % 0x10)
      ∷ hex_digit (n / 0x10 % 0x10)
      ∷ hex_digit (n % 0x10)
      ∷ []

unfoldable pub segments : List ℕ → List ℕ
segments (hi ∷ lo ∷ bs) = (hi * 256 + lo) ∷ segments bs
segments _ = []

-- segments with colons between them
unfoldable pub colons : List ℕ → List ℕ
unfolding hexadecimal
colons [] = []
colons (s ∷ []) = hexadecimal s
colons (s ∷ t ∷ ss) = hexadecimal s ++ 58 ∷ colons (t ∷ ss)

pub record Span : Type 0 where
  pub start : ℕ
  pub len : ℕ

-- The first longest run of zeros, at position `i` with the run at hand and the longest so far.
unfoldable pub longest_zeroes : ℕ → Span → Span → List ℕ → Span
longest_zeroes i current longest [] = longest
longest_zeroes i current longest (s ∷ ss) =
    let current' : Span =
      (if nat_eq s 0
        then record {
          start = if nat_eq current.len 0 then i else current.start;
          len = current.len + 1;
        }
        else record { start = 0; len = 0 }) in
    longest_zeroes (i + 1) current' (if ltb longest.len current'.len then current' else longest) ss

abbrev pub no_span : Span
no_span = record { start = 0; len = 0 }

unfoldable pub compressed : Span → List ℕ → List ℕ
unfolding colons
compressed z ss =
    if ltb 1 z.len
    then colons (take z.start ss) ++ 58 ∷ 58 ∷ colons (drop (z.start + z.len) ss)
    else colons ss

-- ten bytes of zero and two of 255
abbrev pub is_ipv4_mapped : List ℕ → Bool
is_ipv4_mapped ss = list_beq (take 6 ss) (0 ∷ 0 ∷ 0 ∷ 0 ∷ 0 ∷ 65535 ∷ [])

unfoldable pub ipv6_to_string : List ℕ → List ℕ
unfolding ipv4_to_string segments longest_zeroes compressed
ipv6_to_string bytes =
    if is_ipv4_mapped (segments bytes)
    then 58 ∷ 58 ∷ 102 ∷ 102 ∷ 102 ∷ 102 ∷ 58 ∷ ipv4_to_string (drop 12 bytes)
    else compressed (longest_zeroes 0 no_span no_span (segments bytes)) (segments bytes)
