-- ===== src/CompatConfig/Render/Uri/Digits.antt =====
-- The decimal text of a port reads back as the port (crates/compat-config/src/render.rs).
use vpn.Prelude.{
  ℕ, zero, suc, ◌+◌, ◌*◌, ◌/◌, ◌%◌, ◌<◌, ◌≡◌, refl, inl, inr, true, false, List, [], ◌∷◌, ◌++◌,
  Bool-cases, ltb, ltb→lt, arith, append_assoc,
}
use vpn.CompatConfig.Render.Uri.{digits}
use vpn.CompatConfig.Render.Uri.Reader.{number}

-- ten to that power
abbrev pub ten : ℕ → ℕ
ten zero = 1
ten (suc k) = 10 * ten k

digit :
    (m n v : ℕ) (rest : List ℕ)
    → n < 10
    → m * 10 + n ≡ v
    → number m ((48 + n) ∷ rest) ≡ number v rest
unfolding number
digit m n v rest h e = ground arith

pub few_digits : (most n : ℕ) → ltb n 10 ≡ true → digits (suc most) n ≡ (48 + n) ∷ []
unfolding digits
few_digits most n u = rw u refl

pub more_digits :
    (most n : ℕ)
    → ltb n 10 ≡ false
    → digits (suc most) n ≡ digits most (n / 10) ++ (48 + n % 10) ∷ []
unfolding digits
more_digits most n u = rw u refl

pub number-digits :
    (most n : ℕ) (rest : List ℕ) → n < ten most → number 0 (digits most n ++ rest) ≡ number n rest
number-digits zero zero rest h = unfold digits in refl
number-digits zero (suc n) rest h = ground arith
number-digits (suc most) n rest h = elim (Bool-cases (ltb n 10)) [
  | inl u ↦ rw (few_digits most n u) (digit 0 n n rest (ltb→lt n 10 u) (omega arith))
  | inr u ↦
      let ih = number-digits most (n / 10) ((48 + n % 10) ∷ rest) (omega arith) in
      rw (more_digits most n u) (
        rw (append_assoc (digits most (n / 10)) ((48 + n % 10) ∷ []) rest)
          (rw ih (digit (n / 10) (n % 10) n rest (omega arith) (omega arith))))
]
