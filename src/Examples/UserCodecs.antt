-- ===== src/Examples/UserCodecs.antt =====
-- A codec that knows one file of users (crates/compat-config/src/model.rs).
use text.Mathlib.TextEquality.{eq_iff}
use vpn.Prelude.{
  ℕ, ◌≡◌, ◌↔◌, refl, ap, string_Eq, Bool, true, false, ◌&&◌, not, if◌then◌else◌, nat_eq, [], ◌∷◌,
  Option, none, some, Eq, ◌==◌, nat_Eq, list_Eq, list_beq, list_beq_iff, arith,
}
use vpn.CompatConfig.Model.{CompatUser, UsersFile, UsersJson, UsersJsonLaws}
use vpn.Examples.Codecs.{to_one, from_one, from_one-to_one}

abbrev option_beq : Option ℕ → Option ℕ → Bool
option_beq none none = true
option_beq (some a) (some b) = nat_eq a b
option_beq _ _ = false

option_iff : (a b : Option ℕ) → (option_beq a b ≡ true) ↔ (a ≡ b)
option_iff none none = ground arith
option_iff none (some b) = ground arith
option_iff (some a) none = ground arith
option_iff (some a) (some b) = ground (arith, nat_Eq.beq_iff a b)

abbrev bool_beq : Bool → Bool → Bool
bool_beq true b = b
bool_beq false b = not b

bool_iff : (a b : Bool) → (bool_beq a b ≡ true) ↔ (a ≡ b)
bool_iff true true = ground arith
bool_iff true false = ground arith
bool_iff false true = ground arith
bool_iff false false = ground arith

abbrev user_beq : CompatUser → CompatUser → Bool
user_beq a b =
    (a.id == b.id)
    && (a.name == b.name)
    && bool_beq a.enabled b.enabled
    && (a.vless_uuid == b.vless_uuid)
    && (a.hysteria2_password == b.hysteria2_password)
    && (a.subscription_token_hash_hex == b.subscription_token_hash_hex)
    && nat_eq a.created_at b.created_at
    && option_beq a.expires_at b.expires_at

user_iff : (a b : CompatUser) → (user_beq a b ≡ true) ↔ (a ≡ b)
user_iff a b = ground (
  arith,
  eq_iff a.id b.id,
  eq_iff a.name b.name,
  bool_iff a.enabled b.enabled,
  eq_iff a.vless_uuid b.vless_uuid,
  eq_iff a.hysteria2_password b.hysteria2_password,
  eq_iff a.subscription_token_hash_hex b.subscription_token_hash_hex,
  nat_Eq.beq_iff a.created_at b.created_at,
  option_iff a.expires_at b.expires_at,
)

instance abbrev user_Eq : Eq CompatUser
user_Eq = record { beq = user_beq; beq_iff = user_iff }

abbrev file_beq : UsersFile → UsersFile → Bool
file_beq a b = nat_eq a.schema_version b.schema_version && list_beq a.users b.users

and-true : (x y : Bool) → x && y ≡ true → (x ≡ true) × (y ≡ true)
and-true x y h = ground arith

file_same :
    (a b : UsersFile)
    → (nat_eq a.schema_version b.schema_version ≡ true) × (list_beq a.users b.users ≡ true)
    → a ≡ b
file_same a b (h, k) =
    let v = (nat_Eq.beq_iff a.schema_version b.schema_version).0 h in
    let us = (list_beq_iff a.users b.users).0 k in cc

file_true :
    (a b : UsersFile)
    → a.schema_version ≡ b.schema_version
    → a.users ≡ b.users
    → file_beq a b ≡ true
file_true a b v us =
    rw ((nat_Eq.beq_iff a.schema_version b.schema_version).1 v, (list_beq_iff a.users b.users).1 us)
      refl

file_iff : (a b : UsersFile) → (file_beq a b ≡ true) ↔ (a ≡ b)
file_iff a b = (
  λ h. file_same a b (and-true (nat_eq a.schema_version b.schema_version) _ h),
  λ h. file_true a b (ap (λ u. u.schema_version) h) (ap (λ u. u.users) h),
)

instance abbrev file_Eq : Eq UsersFile
file_Eq = record { beq = file_beq; beq_iff = file_iff }

-- A codec for one file of users, whose bare list is written as another byte.
abbrev pub users_codec : UsersFile → UsersJson
users_codec u = record {
  to_vec_pretty = to_one u;
  file_from_slice = from_one u;
  list_from_slice = λ bytes. if list_beq bytes (8 ∷ []) then some u.users else none;
}

pub users_codec-laws : (u : UsersFile) → UsersJsonLaws (users_codec u)
users_codec-laws u = record { from_slice-to_vec = from_one-to_one u }
