-- ===== src/Crypto/Certificate.antt =====
-- Certificates verify against their issuer, and what they sign determines the key and the time
-- (crates/crypto/src/hierarchy.rs).
use native.Mathlib.Nat.{pow-suc}
use vpn.Prelude.{
  ℕ, suc, zero, ◌+◌, ◌*◌, ◌/◌, ◌%◌, ◌^◌, ◌<◌, ◌≡◌, refl, sym, ap, ◌∙◌, List, [], ◌∷◌, ◌++◌, length,
  ok, arith, to_be_bytes, length-append,
}
use vpn.Crypto.{KeyPair, PublicKey, public_key, sign, verify, signing_bytes, issue, verify_against}
use vpn.Crypto.Dalek.{Ed25519, Ed25519Laws}

-- The number that big-endian bytes stand for.
abbrev pub from_bytes : ℕ → List ℕ → ℕ
from_bytes acc [] = acc
from_bytes acc (b ∷ bs) = from_bytes (acc * 256 + b) bs

from_bytes-append :
    (acc : ℕ) (xs : List ℕ) (b : ℕ) → from_bytes acc (xs ++ b ∷ []) ≡ from_bytes acc xs * 256 + b
from_bytes-append acc [] b = refl
from_bytes-append acc (x ∷ xs) b = from_bytes-append (acc * 256 + x) xs b

pub length-to_be_bytes : (k x : ℕ) → length (to_be_bytes k x) ≡ k
unfolding to_be_bytes
length-to_be_bytes zero x = refl
length-to_be_bytes (suc k) x =
    omega (
      arith,
      length-append (to_be_bytes k (x / 256)) (x % 256 ∷ []),
      length-to_be_bytes k (x / 256),
    )

from_bytes-to_be_bytes : (k x : ℕ) → x < 256 ^ k → from_bytes 0 (to_be_bytes k x) ≡ x
unfolding to_be_bytes
from_bytes-to_be_bytes zero x h = omega arith
from_bytes-to_be_bytes (suc k) x h =
    from_bytes-append 0 (to_be_bytes k (x / 256)) (x % 256)
    ∙ omega (
      arith,
      from_bytes-to_be_bytes k (x / 256)
          (let e : 256 ^ suc k ≡ 256 ^ k * 256 = pow-suc 256 k in omega arith),
    )

-- The bytes of a `u64` determine it.
pub to_be_bytes-injective :
    (x y : ℕ) → x < 256 ^ 8 → y < 256 ^ 8 → to_be_bytes 8 x ≡ to_be_bytes 8 y → x ≡ y
to_be_bytes-injective x y hx hy e =
    sym (from_bytes-to_be_bytes 8 x hx) ∙ ap (from_bytes 0) e ∙ from_bytes-to_be_bytes 8 y hy

pub append-injective {ℓ} :
    {A : Type ℓ} (xs xs' ys ys' : List A)
    → length xs ≡ length xs'
    → xs ++ ys ≡ xs' ++ ys'
    → (xs ≡ xs') × (ys ≡ ys')
append-injective [] [] ys ys' l e = (refl, e)
append-injective [] (x ∷ xs') ys ys' l e = absurd (omega arith)
append-injective (x ∷ xs) [] ys ys' l e = absurd (omega arith)
append-injective (x ∷ xs) (x' ∷ xs') ys ys' l e =
    let (p, q) = append-injective xs xs' ys ys' (omega arith) (cc) in (cc, q)

-- No two certificates for keys of 32 bytes share the bytes that are signed, unless they are for one
-- key and one time.
pub signing_bytes-injective :
    (k k' : PublicKey) (t t' : ℕ)
    → length k ≡ 32
    → length k' ≡ 32
    → t < 256 ^ 8
    → t' < 256 ^ 8
    → signing_bytes k t ≡ signing_bytes k' t'
    → (k ≡ k') × (t ≡ t')
unfolding signing_bytes
signing_bytes-injective k k' t t' l l' h h' e =
    let (p, q) = append-injective k k' (to_be_bytes 8 t) (to_be_bytes 8 t') (l ∙ sym l') e in
    (p, to_be_bytes-injective t t' h h' q)

module _ (ed : Ed25519) (laws : Ed25519Laws ed) where
  pub verify-sign :
      (k : KeyPair) (message : List ℕ)
      → verify ed (public_key ed k) message (sign ed k message) ≡ ok tt
  unfolding verify public_key sign
  verify-sign k message =
      rw (laws.public_valid k.signing_key, laws.check-sign k.signing_key message)

  -- A certificate verifies against the public key of its issuer.
  pub verify_against-issue :
      (parent : KeyPair) (child : PublicKey) (t : ℕ)
      → verify_against ed (issue ed parent child t) (public_key ed parent) ≡ ok tt
  unfolding verify_against issue
  verify_against-issue parent child t = verify-sign parent (signing_bytes child t)
