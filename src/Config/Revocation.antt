-- ===== src/Config/Revocation.antt =====
-- crates/config/src/revocation.rs: the set of revoked keys, as a list of keys.
use mathlib.Core.List.{Memᴰ}
use vpn.Prelude.{
  ◌≡◌, refl, sym, Bool, true, false, ◌||◌, nat_Eq, list_beq, list_beq_iff, List, [], ◌∷◌, arith,
  Bool-cases, inl, inr,
}
use vpn.Crypto.{PublicKey}

pub record RevocationList : Type 0 where
  pub revoked : List PublicKey

abbrev pub empty : RevocationList
empty = record { revoked = [] }

abbrev pub from_keys : List PublicKey → RevocationList
from_keys keys = record { revoked = keys }

abbrev pub revoke : RevocationList → PublicKey → RevocationList
revoke l key = record { revoked = key ∷ l.revoked }

pub holds : List PublicKey → PublicKey → Bool
holds [] key = false
holds (k ∷ ks) key = list_beq k key || holds ks key

unfoldable pub contains : RevocationList → PublicKey → Bool
unfolding holds
contains l key = holds l.revoked key

holds_of_mem : {key : PublicKey} {keys : List PublicKey} → Memᴰ key keys → holds keys key ≡ true
unfolding holds
holds_of_mem {key} (Memᴰ.head {x = x} e) = ground (arith, list_beq_iff x key)
holds_of_mem {key} (Memᴰ.tail {x = x} m) = ground (arith, holds_of_mem m)

holds-mem : (key : PublicKey) (keys : List PublicKey) → holds keys key ≡ true → Memᴰ key keys
unfolding holds
holds-mem key [] h = cc
holds-mem key (k ∷ ks) h = elim (Bool-cases (list_beq k key)) [
  | inl e ↦ Memᴰ.head (sym ((list_beq_iff k key).0 e))
  | inr e ↦ Memᴰ.tail (holds-mem key ks (rw e at h))
]

-- A list made from keys contains exactly these.
pub contains_iff :
    (keys : List PublicKey) (key : PublicKey)
    → (contains (from_keys keys) key ≡ true → Memᴰ key keys)
      × (Memᴰ key keys → contains (from_keys keys) key ≡ true)
unfolding contains
contains_iff keys key = (holds-mem key keys, holds_of_mem)

pub contains-revoke :
    (l : RevocationList) (key other : PublicKey)
    → contains (revoke l key) other ≡ (list_beq key other || contains l other)
unfolding contains holds
contains-revoke l key other = refl
