-- ===== src/Prelude/Words.antt =====
-- Rust's unsigned integers as numbers below a power of two, and their big-endian bytes.
use Prim.Native.Nat.{ℕ, zero, suc, ◌+◌, ◌/◌, ◌%◌, min}
use mathlib.Core.List.{List, [], ◌∷◌, ◌++◌}

abbrev pub u16_max : ℕ
u16_max = 65535

abbrev pub u32_max : ℕ
u32_max = 4294967295

abbrev pub u64_max : ℕ
u64_max = 18446744073709551615

-- `a.saturating_add(b)` on a type whose largest value is `top`
unfoldable pub saturating_add : ℕ → ℕ → ℕ → ℕ
saturating_add top a b = min (a + b) top

-- `x.to_be_bytes()` of a word of `k` bytes
unfoldable pub to_be_bytes : ℕ → ℕ → List ℕ
to_be_bytes zero x = []
to_be_bytes (suc k) x = to_be_bytes k (x / 256) ++ (x % 256) ∷ []
