-- ===== src/CompatConfig/Render/Connects/Lists.antt =====
-- Lists of JSON values of which one is as wanted (crates/compat-config/src/render.rs and server.rs).
use mathlib.Core.List.{Memᴰ}
use mathlib.Core.List.Memᴰ.{not-nil}
use vpn.Prelude.{◌≡◌, refl, ap, ◌∙◌, String, string_Eq, ◌==◌, Bool, true, List, [], ◌∷◌, map, arith}
use vpn.CompatConfig.Server.Json.{Value, array, elements, elements-array}
use vpn.CompatConfig.Server.Reading.{any_of}
use vpn.CompatConfig.Render.Connects.{connects, all_connect}

any_of-map {ℓ} :
    {A : Type ℓ} (p : Value → Bool) (f : A → Value) (xs : List A) (x : A)
    → Memᴰ x xs
    → p (f x) ≡ true
    → any_of p (map f xs) ≡ true
unfolding any_of
any_of-map p f [] x m h = absurd (not-nil m)
any_of-map p f (y ∷ xs) x (Memᴰ.head q) h = ground (arith, ap (λ z. p (f z)) q)
any_of-map p f (y ∷ xs) x (Memᴰ.tail m) h = ground (arith, any_of-map p f xs x m h)

pub string_refl : (s : String) → (s == s) ≡ true
string_refl s = (string_Eq.beq_iff s s).1 refl

pub any_of-array {ℓ} :
    {A : Type ℓ} (p : Value → Bool) (f : A → Value) (xs : List A) (x : A)
    → Memᴰ x xs
    → p (f x) ≡ true
    → any_of p (elements (array (map f xs))) ≡ true
any_of-array p f xs x m h = ap (any_of p) (elements-array (map f xs)) ∙ any_of-map p f xs x m h

pub any_of-first :
    (p : Value → Bool) (v : Value) (vs : List Value) → p v ≡ true → any_of p (v ∷ vs) ≡ true
unfolding any_of
any_of-first p v vs h = ground arith

pub any_of-second :
    (p : Value → Bool) (v w : Value) (vs : List Value) → p w ≡ true → any_of p (v ∷ w ∷ vs) ≡ true
unfolding any_of
any_of-second p v w vs h = ground arith

pub all_connect-two :
    (public_of : String → String) (server v w : Value) (vs : List Value)
    → connects public_of server v ≡ true
    → connects public_of server w ≡ true
    → all_connect public_of server vs ≡ true
    → all_connect public_of server (v ∷ w ∷ vs) ≡ true
unfolding all_connect
all_connect-two public_of server v w vs a b c = ground arith
