-- ===== src/CompatConfig/Render/Uri/Reader.antt =====
-- A reader of the links of crates/compat-config/src/render.rs, as an importer takes them apart: scheme,
-- user, host, port, parameters and the decoded fragment.
use vpn.Prelude.{
  ℕ, ◌+◌, ◌*◌, ◌-◌, ◌&&◌, leb, nat_eq, if◌then◌else◌, List, [], ◌∷◌, Option, none, some,
}

infixl 5 ◌>>=◌
abbrev ◌>>=◌ {ℓ κ} : {A : Type ℓ} {B : Type κ} → Option A → (A → Option B) → Option B
some a >>= f = f a
none >>= f = none

pub record Uri : Type 0 where
  pub scheme : List ℕ
  pub user : List ℕ
  pub host : List ℕ
  pub port : ℕ
  pub params : List (List ℕ × List ℕ)
  pub fragment : List ℕ

-- the text before the first such byte, and after it
unfoldable pub split_at : ℕ → List ℕ → Option (List ℕ × List ℕ)
split_at c [] = none
split_at c (b ∷ bs) =
    let rest = split_at c bs in
    if nat_eq b c
    then some ([], bs)
    else elim rest [ none ↦ none | some (before, after) ↦ some (b ∷ before, after) ]

abbrev pub push : ℕ → List (List ℕ) → List (List ℕ)
push b [] = (b ∷ []) ∷ []
push b (x ∷ xs) = (b ∷ x) ∷ xs

-- the texts between such bytes
unfoldable pub split_on : ℕ → List ℕ → List (List ℕ)
split_on c [] = [] ∷ []
split_on c (b ∷ bs) = let rest = split_on c bs in if nat_eq b c then [] ∷ rest else push b rest

unfoldable pub key_values : List (List ℕ) → Option (List (List ℕ × List ℕ))
unfolding split_at
key_values [] = some []
key_values (t ∷ ts) =
    let rest = key_values ts in
    elim (split_at 61 t) [
      | none ↦ none
      | some kv ↦ elim rest [ none ↦ none | some kvs ↦ some (kv ∷ kvs) ]
    ]

-- a decimal number, with the value of the digits before
unfoldable pub number : ℕ → List ℕ → Option ℕ
number n [] = some n
number n (b ∷ bs) =
    let rest = number (n * 10 + (b - 48)) bs in if leb 48 b && leb b 57 then rest else none

unfoldable pub hex_value : ℕ → Option ℕ
hex_value b =
    if leb 48 b && leb b 57
    then some (b - 48)
    else if leb 65 b && leb b 70
    then some (b - 55)
    else none

unfoldable pub percent_decode : List ℕ → Option (List ℕ)
unfolding hex_value
percent_decode [] = some []
percent_decode (b ∷ []) = if nat_eq b 37 then none else some (b ∷ [])
percent_decode (b ∷ c ∷ []) =
    let rest = percent_decode (c ∷ []) in if nat_eq b 37 then none else rest >>= λ r. some (b ∷ r)
percent_decode (b ∷ c ∷ d ∷ bs) =
    let escaped = percent_decode bs in
    let rest = percent_decode (c ∷ d ∷ bs) in
    if nat_eq b 37
    then (hex_value c >>= λ hi. hex_value d >>= λ lo. escaped >>= λ r. some ((hi * 16 + lo) ∷ r))
    else rest >>= λ r. some (b ∷ r)

-- what follows the scheme's colon
unfoldable pub after_slashes : List ℕ → Option (List ℕ)
after_slashes (a ∷ b ∷ bs) = if nat_eq a 47 && nat_eq b 47 then some bs else none
after_slashes _ = none

unfoldable pub read_uri : List ℕ → Option Uri
unfolding split_at split_on key_values number percent_decode after_slashes
read_uri text = split_at 58 text >>= λ (scheme, t1). after_slashes t1 >>= λ t2.
    split_at 64 t2 >>= λ (user, t3). split_at 58 t3 >>= λ (host, t4).
    split_at 63 t4 >>= λ (port, t5). split_at 35 t5 >>= λ (query, t6).
    number 0 port >>= λ port_number. key_values (split_on 38 query) >>= λ params.
    percent_decode t6 >>= λ fragment. some (record {
      scheme = scheme;
      user = user;
      host = host;
      port = port_number;
      params = params;
      fragment = fragment;
    })
