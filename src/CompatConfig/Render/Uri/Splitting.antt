-- ===== src/CompatConfig/Render/Uri/Splitting.antt =====
-- A text that is taken apart where a byte first occurs (a reader of the links of
-- crates/compat-config/src/render.rs).
use vpn.Prelude.{
  ℕ, zero, suc, ◌+◌, ◌/◌, ◌%◌, ◌<◌, ◌≡◌, refl, inl, inr, Bool, true, false, not, ◌&&◌, nat_eq, ltb,
  List, [], ◌∷◌, ◌++◌, some, Bool-cases, arith,
}
use vpn.CompatConfig.Render.Uri.{digits}
use vpn.CompatConfig.Render.Uri.Reader.{split_at, split_on}
use vpn.CompatConfig.Render.Uri.Digits.{few_digits, more_digits}

-- the byte does not occur
unfoldable pub lacks : ℕ → List ℕ → Bool
lacks c [] = true
lacks c (b ∷ bs) = not (nat_eq b c) && lacks c bs

lacks_parts :
    (c x : ℕ) (xs : List ℕ) → lacks c (x ∷ xs) ≡ true → (nat_eq x c ≡ false) × (lacks c xs ≡ true)
unfolding lacks
lacks_parts c x xs h = ground arith

pub lacks-cons :
    (c b : ℕ) (bs : List ℕ) → nat_eq b c ≡ false → lacks c bs ≡ true → lacks c (b ∷ bs) ≡ true
unfolding lacks
lacks-cons c b bs h k = ground arith

pub lacks-append :
    (c : ℕ) (xs ys : List ℕ) → lacks c xs ≡ true → lacks c ys ≡ true → lacks c (xs ++ ys) ≡ true
unfolding lacks
lacks-append c [] ys h k = k
lacks-append c (x ∷ xs) ys h k = let ih = lacks-append c xs ys in ground arith

pub lacks-digits : (c most n : ℕ) → 57 < c → lacks c (digits most n) ≡ true
lacks-digits c zero n h = unfold digits lacks in refl
lacks-digits c (suc most) n h = elim (Bool-cases (ltb n 10)) [
  | inl u ↦ rw (few_digits most n u) (unfold lacks in ground arith)
  | inr u ↦ rw (more_digits most n u) (
      lacks-append c (digits most (n / 10)) ((48 + n % 10) ∷ []) (lacks-digits c most (n / 10) h)
        (unfold lacks in ground arith))
]

pub split_at-first :
    (c : ℕ) (xs rest : List ℕ) → lacks c xs ≡ true → split_at c (xs ++ c ∷ rest) ≡ some (xs, rest)
unfolding split_at lacks
split_at-first c [] rest h = ground arith
split_at-first c (x ∷ xs) rest h =
    let ih = split_at-first c xs rest in let l = lacks_parts c x xs h in rw l.0 (rw (ih l.1) refl)

pub split_on-last : (c : ℕ) (xs : List ℕ) → lacks c xs ≡ true → split_on c xs ≡ xs ∷ []
unfolding split_on lacks
split_on-last c [] h = refl
split_on-last c (x ∷ xs) h =
    let ih = split_on-last c xs in let l = lacks_parts c x xs h in rw l.0 (rw (ih l.1) refl)

pub split_on-first :
    (c : ℕ) (xs rest : List ℕ)
    → lacks c xs ≡ true
    → split_on c (xs ++ c ∷ rest) ≡ xs ∷ split_on c rest
unfolding split_on lacks
split_on-first c [] rest h = ground arith
split_on-first c (x ∷ xs) rest h =
    let ih = split_on-first c xs rest in let l = lacks_parts c x xs h in rw l.0 (rw (ih l.1) refl)
