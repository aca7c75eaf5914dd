-- ===== src/Common/Framing/Utf8.antt =====
-- `std::str::from_utf8` as a test on bytes: the automaton of well-formed UTF-8.
use vpn.Prelude.{
  ℕ, ◌≤◌, ◌≡◌, refl, arith, Bool, true, false, ◌&&◌, leb, nat_eq, if◌then◌else◌, List, [], ◌∷◌,
}

-- What the next byte may be: a first byte, or the last one, two or three of a sequence, where the
-- second byte of some sequences has a narrower range.
pub data Utf8State : Type 0 where
  start last1 last2 last3 after_e0 after_ed after_f0 after_f4 invalid : Utf8State

abbrev between : ℕ → ℕ → ℕ → Bool
between lo hi b = leb lo b && leb b hi

pub first_byte : ℕ → Utf8State
first_byte b =
    if leb b 0x7f
    then start
    else if between 0xc2 0xdf b
    then last1
    else if nat_eq b 0xe0
    then after_e0
    else if nat_eq b 0xed
    then after_ed
    else if between 0xe1 0xef b
    then last2
    else if nat_eq b 0xf0
    then after_f0
    else if between 0xf1 0xf3 b
    then last3
    else if nat_eq b 0xf4
    then after_f4
    else invalid

pub utf8_step : Utf8State → ℕ → Utf8State
unfolding first_byte
utf8_step start b = first_byte b
utf8_step last1 b = if between 0x80 0xbf b then start else invalid
utf8_step last2 b = if between 0x80 0xbf b then last1 else invalid
utf8_step last3 b = if between 0x80 0xbf b then last2 else invalid
utf8_step after_e0 b = if between 0xa0 0xbf b then last1 else invalid
utf8_step after_ed b = if between 0x80 0x9f b then last1 else invalid
utf8_step after_f0 b = if between 0x90 0xbf b then last2 else invalid
utf8_step after_f4 b = if between 0x80 0x8f b then last2 else invalid
utf8_step invalid b = invalid

utf8_from : Utf8State → List ℕ → Bool
unfolding utf8_step
utf8_from start [] = true
utf8_from s [] = false
utf8_from s (b ∷ bs) = utf8_from (utf8_step s b) bs

unfoldable pub is_utf8 : List ℕ → Bool
unfolding utf8_from
is_utf8 bs = utf8_from start bs

abbrev pub IsAscii : List ℕ → Type 0
IsAscii [] = Unit {0}
IsAscii (b ∷ bs) = (b ≤ 0x7f) × IsAscii bs

-- ASCII is UTF-8
pub IsAscii-is_utf8 : (bs : List ℕ) → IsAscii bs → is_utf8 bs ≡ true
unfolding is_utf8 utf8_from utf8_step first_byte
IsAscii-is_utf8 [] a = refl
IsAscii-is_utf8 (b ∷ bs) a = ground (arith, a.0, IsAscii-is_utf8 bs a.1)
