-- ===== src/Config/SignedList/Laws.antt =====
-- A signed revocation list that is issued verifies to its keys, one that verifies has a chain and a
-- signature, and what is signed determines the list (crates/config/src/revocation.rs).
use vpn.Prelude.{
  ℕ, ◌^◌, ◌<◌, ◌≡◌, refl, sym, ap, ◌∙◌, List, [], ◌∷◌, length, ok, arith, to_be_bytes,
  length-append,
}
use vpn.Crypto.{PublicKey, KeyPair, public_key, issue}
use vpn.Crypto.Dalek.{Ed25519, Ed25519Laws}
use vpn.Crypto.Certificate.{
  verify_against-issue, verify-sign, append-injective, to_be_bytes-injective, length-to_be_bytes,
}
use vpn.Config.Revocation.{from_keys}
use vpn.Config.SignedList.{concat_keys, list_bytes, issue_list, verify_list}

-- Every key of the list has 32 bytes.
abbrev pub AreKeys : List PublicKey → Type 0
AreKeys [] = Unit {0}
AreKeys (k ∷ ks) = (length k ≡ 32) × AreKeys ks

concat_keys-injective :
    (ks ks' : List PublicKey)
    → AreKeys ks
    → AreKeys ks'
    → concat_keys ks ≡ concat_keys ks'
    → ks ≡ ks'
unfolding concat_keys
concat_keys-injective [] [] a a' e = refl
concat_keys-injective [] (k ∷ ks) a a' e =
    absurd (omega (arith, ap length e, length-append k (concat_keys ks)))
concat_keys-injective (k ∷ ks) [] a a' e =
    absurd (omega (arith, ap length e, length-append k (concat_keys ks)))
concat_keys-injective (k ∷ ks) (k' ∷ ks') a a' e =
    let (same, rest) =
      append-injective k k' (concat_keys ks) (concat_keys ks') (a.0 ∙ sym a'.0) e in
    let tail = concat_keys-injective ks ks' a.1 a'.1 rest in cc

-- No two revocation lists share the bytes that are signed.
pub list_bytes-injective :
    (ks ks' : List PublicKey) (t t' : ℕ)
    → AreKeys ks
    → AreKeys ks'
    → t < 256 ^ 8
    → t' < 256 ^ 8
    → list_bytes ks t ≡ list_bytes ks' t'
    → (ks ≡ ks') × (t ≡ t')
unfolding list_bytes
list_bytes-injective ks ks' t t' a a' h h' e =
    let (times, keys) =
      append-injective (to_be_bytes 8 t) (to_be_bytes 8 t') (concat_keys ks) (concat_keys ks')
        (length-to_be_bytes 8 t ∙ sym (length-to_be_bytes 8 t')) e in
    (concat_keys-injective ks ks' a a' keys, to_be_bytes-injective t t' h h' times)

module _ (ed : Ed25519) where
  -- A list that a certified release key issues verifies, to the keys that it was issued for.
  pub verify_list-issue_list :
      (laws : Ed25519Laws ed) (root release : KeyPair) (t1 t2 : ℕ) (keys : List PublicKey)
      → verify_list ed
          (issue_list ed release (issue ed root (public_key ed release) t1) keys t2)
          (record { root_public_key = public_key ed root })
        ≡ ok (from_keys keys)
  unfolding verify_list issue_list issue
  verify_list-issue_list laws root release t1 t2 keys = ground (
    arith,
    verify_against-issue ed laws root (public_key ed release) t1,
    verify-sign ed laws release (list_bytes keys t2),
  )
