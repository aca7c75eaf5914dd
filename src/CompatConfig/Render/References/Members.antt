-- ===== src/CompatConfig/Render/References/Members.antt =====
-- The default of a selector is one of its members (crates/compat-config/src/render.rs).
use mathlib.Core.List.{Memᴰ}
use mathlib.Core.List.Memᴰ.{not-nil}
use vpn.Prelude.{
  ◌≡◌, inl, inr, refl, String, string_Eq, List, [], ◌∷◌, ◌++◌, Option, none, some, Bool-cases,
  arith, subst, sym,
}
use vpn.CompatConfig.Model.{CompatEndpoint, CompatTransport, vless_reality, hysteria2}
use vpn.CompatConfig.Render.{
  SelectionProfile, reliability, performance, auto, labels, is_transport, first_tag, first_label,
  or_else, unwrap_or, default_tag,
}

abbrev pub AllIn : List String → List String → Type 0
AllIn [] ys = Unit {0}
AllIn (x ∷ xs) ys = Memᴰ x ys × AllIn xs ys

pub AllIn-append : (xs xs' ys : List String) → AllIn xs ys → AllIn xs' ys → AllIn (xs ++ xs') ys
AllIn-append [] xs' ys a b = b
AllIn-append (x ∷ xs) xs' ys a b = (a.0, AllIn-append xs xs' ys a.1 b)

Memᴰ-left : (x : String) (xs ys : List String) → Memᴰ x xs → Memᴰ x (xs ++ ys)
Memᴰ-left x [] ys m = absurd (not-nil m)
Memᴰ-left x (y ∷ xs) ys (Memᴰ.head q) = Memᴰ.head q
Memᴰ-left x (y ∷ xs) ys (Memᴰ.tail m) = Memᴰ.tail (Memᴰ-left x xs ys m)

pub Memᴰ-right : (x : String) (xs ys : List String) → Memᴰ x ys → Memᴰ x (xs ++ ys)
Memᴰ-right x [] ys m = m
Memᴰ-right x (y ∷ xs) ys m = Memᴰ.tail (Memᴰ-right x xs ys m)

AllIn-tail : (y : String) (xs ys : List String) → AllIn xs ys → AllIn xs (y ∷ ys)
AllIn-tail y [] ys a = tt
AllIn-tail y (x ∷ xs) ys a = (Memᴰ.tail a.0, AllIn-tail y xs ys a.1)

pub AllIn-prefix : (xs ys : List String) → AllIn xs (xs ++ ys)
AllIn-prefix [] ys = tt
AllIn-prefix (x ∷ xs) ys = (Memᴰ.head refl, AllIn-tail x xs (xs ++ ys) (AllIn-prefix xs ys))

pub AllIn-mem : (xs ys : List String) (x : String) → AllIn xs ys → Memᴰ x xs → Memᴰ x ys
AllIn-mem [] ys x a m = absurd (not-nil m)
AllIn-mem (z ∷ xs) ys x a (Memᴰ.head q) = subst (λ w. Memᴰ w ys) (sym q) a.0
AllIn-mem (z ∷ xs) ys x a (Memᴰ.tail m) = AllIn-mem xs ys x a.1 m

first_tag-mem :
    (t : CompatTransport) (eps : List CompatEndpoint) (l : String)
    → first_tag t eps ≡ some l
    → Memᴰ l (labels eps)
unfolding first_tag
first_tag-mem t [] l e = absurd (cc)
first_tag-mem t (ep ∷ eps) l e = elim (Bool-cases (is_transport ep.transport t)) [
  | inl this ↦ Memᴰ.head (ground arith)
  | inr other ↦ Memᴰ.tail (first_tag-mem t eps l (ground arith))
]

unwrap_or-mem :
    (ls : List String) (o : Option String)
    → ((l : String) → o ≡ some l → Memᴰ l ls)
    → Memᴰ (unwrap_or o "auto") (ls ++ "auto" ∷ [])
unfolding unwrap_or
unwrap_or-mem ls none h = Memᴰ-right "auto" ls ("auto" ∷ []) (Memᴰ.head refl)
unwrap_or-mem ls (some l) h = Memᴰ-left l ls ("auto" ∷ []) (h l refl)

or_else-mem :
    (ls : List String) (o p : Option String)
    → ((l : String) → o ≡ some l → Memᴰ l ls)
    → ((l : String) → p ≡ some l → Memᴰ l ls)
    → (l : String) → or_else o p ≡ some l
    → Memᴰ l ls
unfolding or_else
or_else-mem ls (some x) p a b = a
or_else-mem ls none p a b = b

first_label-mem : (ls : List String) (l : String) → first_label ls ≡ some l → Memᴰ l ls
unfolding first_label
first_label-mem [] l e = absurd (cc)
first_label-mem (x ∷ ls) l e = Memᴰ.head (cc)

-- the default is one of the options
pub default_tag-mem :
    (profile : SelectionProfile) (eps : List CompatEndpoint)
    → Memᴰ (default_tag profile eps) (labels eps ++ "auto" ∷ [])
unfolding default_tag
default_tag-mem reliability eps = unwrap_or-mem (labels eps) _ (
    or_else-mem (labels eps) (first_tag vless_reality eps) (first_label (labels eps))
      (first_tag-mem vless_reality eps) (first_label-mem (labels eps)))
default_tag-mem performance eps = unwrap_or-mem (labels eps) _ (
    or_else-mem (labels eps) (or_else (first_tag hysteria2 eps) (first_tag vless_reality eps))
      (first_label (labels eps))
      (or_else-mem (labels eps) (first_tag hysteria2 eps) (first_tag vless_reality eps)
        (first_tag-mem hysteria2 eps) (first_tag-mem vless_reality eps))
      (first_label-mem (labels eps)))
default_tag-mem auto eps = Memᴰ-right "auto" (labels eps) ("auto" ∷ []) (Memᴰ.head refl)
