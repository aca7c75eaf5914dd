-- ===== src/CompatConfig/Render/Uri/Assembled.antt =====
-- A link put together from its parts reads back as them (crates/compat-config/src/render.rs).
use mathlib.Core.List.{append-nil}
use vpn.Prelude.{
  ℕ, ◌<◌, ◌≡◌, refl, Bool, true, ◌&&◌, List, [], ◌∷◌, ◌++◌, some, arith, append_assoc, sym, subst,
}
use vpn.Common.Framing.RoundTrip.{IsBytes}
use vpn.CompatConfig.Render.Uri.{port_text, percent_encode_label}
use vpn.CompatConfig.Render.Uri.Reader.{split_on, key_values, number, read_uri}
use vpn.CompatConfig.Render.Uri.Percent.{percent_decode-encode}
use vpn.CompatConfig.Render.Uri.Digits.{number-digits}
use vpn.CompatConfig.Render.Uri.Splitting.{
  lacks, lacks-cons, lacks-append, lacks-digits, split_at-first, split_on-last, split_on-first,
}

-- A link: the parameters, with what follows them.
abbrev pub params_then : List (List ℕ × List ℕ) → List ℕ → List ℕ
params_then [] rest = rest
params_then ((k, v) ∷ []) rest = k ++ 61 ∷ (v ++ rest)
params_then ((k, v) ∷ p ∷ ps) rest = k ++ 61 ∷ (v ++ 38 ∷ params_then (p ∷ ps) rest)

abbrev pub assemble : List ℕ → List ℕ → List ℕ → ℕ → List (List ℕ × List ℕ) → List ℕ → List ℕ
assemble scheme user host port params label =
    scheme
    ++ 58
      ∷ 47
      ∷ 47
      ∷ (user
          ++ 64
            ∷ (host
                ++ 58
                  ∷ (port_text port ++ 63 ∷ params_then params (35 ∷ percent_encode_label label))))

-- A key or value holds no byte that ends it.
unfoldable pub are_separate : List (List ℕ × List ℕ) → Bool
unfolding lacks
are_separate [] = true
are_separate ((k, v) ∷ ps) =
    lacks 61 k && (lacks 38 k && (lacks 35 k && (lacks 38 v && (lacks 35 v && are_separate ps))))

-- A parameter, and the parameters between `&`s.
abbrev pair_text : List ℕ × List ℕ → List ℕ
pair_text (k, v) = k ++ 61 ∷ v

abbrev query : List (List ℕ × List ℕ) → List ℕ
query [] = []
query (p ∷ []) = pair_text p
query (p ∷ q ∷ ps) = pair_text p ++ 38 ∷ query (q ∷ ps)

params_then-query :
    (ps : List (List ℕ × List ℕ)) (rest : List ℕ) → params_then ps rest ≡ query ps ++ rest
params_then-query [] rest = refl
params_then-query ((k, v) ∷ []) rest = rw (append_assoc k (61 ∷ v) rest) refl
params_then-query ((k, v) ∷ p ∷ ps) rest =
    rw (append_assoc (k ++ 61 ∷ v) (38 ∷ query (p ∷ ps)) rest) (
      rw (append_assoc k (61 ∷ v) (38 ∷ (query (p ∷ ps) ++ rest)))
        (rw (sym (params_then-query (p ∷ ps) rest)) refl))

record Separate (k v : List ℕ) (ps : List (List ℕ × List ℕ)) : Type 0 where
  key : lacks 61 k ≡ true
  pair_amp : lacks 38 (k ++ 61 ∷ v) ≡ true
  pair_hash : lacks 35 (k ++ 61 ∷ v) ≡ true
  others : are_separate ps ≡ true

separate_parts :
    (k v : List ℕ) (ps : List (List ℕ × List ℕ))
    → are_separate ((k, v) ∷ ps) ≡ true
    → (lacks 61 k ≡ true)
      × (lacks 38 k ≡ true)
      × (lacks 35 k ≡ true)
      × (lacks 38 v ≡ true)
      × (lacks 35 v ≡ true)
      × (are_separate ps ≡ true)
unfolding are_separate
separate_parts k v ps h = ground arith

separate :
    (k v : List ℕ) (ps : List (List ℕ × List ℕ))
    → are_separate ((k, v) ∷ ps) ≡ true
    → Separate k v ps
unfolding are_separate
separate k v ps h =
    let parts = separate_parts k v ps h in
    record {
      key = parts.0;
      pair_amp = lacks-append 38 k (61 ∷ v) parts.1 (lacks-cons 38 61 v refl parts.3);
      pair_hash = lacks-append 35 k (61 ∷ v) parts.2 (lacks-cons 35 61 v refl parts.4);
      others = parts.5;
    }

lacks-query : (ps : List (List ℕ × List ℕ)) → are_separate ps ≡ true → lacks 35 (query ps) ≡ true
lacks-query [] h = unfold lacks in refl
lacks-query ((k, v) ∷ []) h = (separate k v [] h).pair_hash
lacks-query ((k, v) ∷ p ∷ ps) h =
    let s = separate k v (p ∷ ps) h in
    lacks-append 35 (k ++ 61 ∷ v) (38 ∷ query (p ∷ ps)) s.pair_hash
      (lacks-cons 35 38 (query (p ∷ ps)) refl (lacks-query (p ∷ ps) s.others))

key_values-pair :
    (k v : List ℕ) (texts : List (List ℕ)) (ps : List (List ℕ × List ℕ))
    → lacks 61 k ≡ true
    → key_values texts ≡ some ps
    → key_values ((k ++ 61 ∷ v) ∷ texts) ≡ some ((k, v) ∷ ps)
unfolding key_values
key_values-pair k v texts ps h ih = rw (split_at-first 61 k v h, key_values) (rw ih refl)

key_values-query :
    (p : List ℕ × List ℕ) (ps : List (List ℕ × List ℕ))
    → are_separate (p ∷ ps) ≡ true
    → key_values (split_on 38 (query (p ∷ ps))) ≡ some (p ∷ ps)
key_values-query (k, v) [] h =
    let s = separate k v [] h in
    rw (split_on-last 38 (k ++ 61 ∷ v) s.pair_amp)
      (key_values-pair k v [] [] s.key (unfold key_values in refl))
key_values-query (k, v) (q ∷ ps) h =
    let s = separate k v (q ∷ ps) h in
    let ih = key_values-query q ps s.others in
    rw (split_on-first 38 (k ++ 61 ∷ v) (query (q ∷ ps)) s.pair_amp)
      (key_values-pair k v (split_on 38 (query (q ∷ ps))) (q ∷ ps) s.key ih)

-- The parts hold no byte that ends them.
unfoldable pub is_wellformed : List ℕ → List ℕ → List ℕ → List (List ℕ × List ℕ) → Bool
unfolding are_separate
is_wellformed scheme user host params =
    lacks 58 scheme && (lacks 64 user && (lacks 58 host && are_separate params))

number-port : (port : ℕ) → port < 65536 → number 0 (port_text port) ≡ some port
number-port port h =
    subst (λ x. number 0 x ≡ some port) (append-nil (port_text port))
      (unfold number in number-digits 5 port [] (omega arith))

wellformed_parts :
    (scheme user host : List ℕ) (params : List (List ℕ × List ℕ))
    → is_wellformed scheme user host params ≡ true
    → (lacks 58 scheme ≡ true)
      × (lacks 64 user ≡ true)
      × (lacks 58 host ≡ true)
      × (are_separate params ≡ true)
unfolding is_wellformed
wellformed_parts scheme user host params h = ground arith

pub read_uri-assemble :
    (scheme user host : List ℕ) (port : ℕ) (p : List ℕ × List ℕ) (ps : List (List ℕ × List ℕ))
    (label : List ℕ)
    → is_wellformed scheme user host (p ∷ ps) ≡ true
    → port < 65536
    → IsBytes label
    → read_uri (assemble scheme user host port (p ∷ ps) label)
      ≡ some (record {
        scheme = scheme;
        user = user;
        host = host;
        port = port;
        params = p ∷ ps;
        fragment = label;
      })
unfolding read_uri
read_uri-assemble scheme user host port p ps label w h b =
    let parts = wellformed_parts scheme user host (p ∷ ps) w in
    let after_query = percent_encode_label label in
    let after_port = query (p ∷ ps) ++ 35 ∷ after_query in
    let after_host = port_text port ++ 63 ∷ after_port in
    let after_user = host ++ 58 ∷ after_host in
    rw
      (
        params_then-query (p ∷ ps) (35 ∷ after_query),
        split_at-first 58 scheme (47 ∷ 47 ∷ (user ++ 64 ∷ after_user)) parts.0,
        split_at-first 64 user after_user parts.1,
        split_at-first 58 host after_host parts.2,
        split_at-first 63 (port_text port) after_port (lacks-digits 63 5 port (omega arith)),
        split_at-first 35 (query (p ∷ ps)) after_query (lacks-query (p ∷ ps) parts.3),
        number-port port h,
        key_values-query p ps parts.3,
        percent_decode-encode label b,
      )
      refl
