-- ===== src/CompatConfig/Render/Connects.antt =====
-- When a client's configuration and the server's fit together (crates/compat-config/src/render.rs and
-- server.rs).
pub mod Lists
pub mod Outbounds
pub mod Subscription
use mathlib.Core.List.{Memᴰ}
use mathlib.Core.List.Memᴰ.{not-nil}
use vpn.Prelude.{
  ℕ, ◌≡◌, inl, inr, refl, sym, ap, ◌∙◌, String, string_Eq, ◌==◌, Bool, true, false, ◌&&◌, ◌||◌,
  if◌then◌else◌, nat_eq, List, [], ◌∷◌, map, keep, keep-mem, Option, none, some, Result, ok, err,
  Bool-cases, arith,
}
use vpn.CompatConfig.Model.{
  CompatUser, CompatError, CompatEndpoint, vless_reality, hysteria2, hysteria2_parameters,
  is_active, RealityServerParams, Hysteria2ServerParams,
}
use vpn.CompatConfig.Server.Json.{
  Value, bool, num, str, array, object, get, elements, elements-array,
}
use vpn.CompatConfig.Server.Reading.{has, any_of, elements_at, is_text, is_option_text}
use vpn.CompatConfig.Server.Accepts.{optional_fields, obfs_object}
use vpn.CompatConfig.Server.{
  ServerPorts, vless_user, hysteria_user, vless_inbound, hysteria_inbound,
  render_singbox_server_config,
}
use vpn.CompatConfig.Render.{
  SelectionProfile, sni, vless_outbound, hysteria_outbound, with_client_obfs, urltest_group,
  selector, standard_endpoints, client_document, render_singbox_client_subscription_with_profile,
}

-- the value at a path of fields
unfoldable pub at_path : List String → Option Value → Option Value
at_path [] v = v
at_path (k ∷ ks) none = none
at_path (k ∷ ks) (some v) = at_path ks (get k v)

unfoldable pub same_values : Option Value → Option Value → Bool
same_values (some (str s)) (some (str t)) = s == t
same_values (some (num a)) (some (num b)) = nat_eq a b
same_values _ _ = false

-- the fields at two paths hold the same text or number
unfoldable pub agree : List String → Value → List String → Value → Bool
unfolding at_path same_values
agree p v q w = same_values (at_path p (some v)) (at_path q (some w))

unfoldable pub absent : Option Value → Bool
absent none = true
absent (some v) = false

-- as above, or there is neither field
unfoldable pub agree_if_any : List String → Value → Value → Bool
unfolding at_path same_values absent
agree_if_any p v w =
    same_values (at_path p (some v)) (at_path p (some w))
    || (absent (at_path p (some v)) && absent (at_path p (some w)))

unfoldable pub listed_at : List String → Value → List Value
unfolding at_path
listed_at p v = elim (at_path p (some v)) [ none ↦ [] | some w ↦ elements w ]

unfoldable pub is_true : Option Value → Bool
is_true (some (bool b)) = b
is_true _ = false

-- the field at a path is switched on
unfoldable pub is_on : List String → Value → Bool
unfolding at_path is_true
is_on p v = is_true (at_path p (some v))

-- A public key is that of a private one. The derivation is that of X25519, in hexadecimal.
unfoldable pub is_key_of : (String → String) → Option Value → Option Value → Bool
unfolding same_values
is_key_of public_of (some (str private)) public =
    same_values (some (str (public_of private))) public
is_key_of public_of _ public = false

-- Reality is on at both ends, and the client has the public key of the server's private one
unfoldable pub reality_fits : (String → String) → Value → Value → Bool
unfolding is_on is_key_of at_path
reality_fits public_of client inbound =
    is_on ("tls" ∷ "enabled" ∷ []) inbound
    && (is_on ("tls" ∷ "enabled" ∷ []) client
        && (is_on ("tls" ∷ "reality" ∷ "enabled" ∷ []) inbound
            && (is_on ("tls" ∷ "reality" ∷ "enabled" ∷ []) client
                && is_key_of public_of
                    (at_path ("tls" ∷ "reality" ∷ "private_key" ∷ []) (some inbound))
                    (at_path ("tls" ∷ "reality" ∷ "public_key" ∷ []) (some client)))))

-- A VLESS client with this outbound gets through this inbound: Reality fits, the port and the name in
-- the handshake are the same, some user of the inbound has its identifier and flow, and its short id is
-- listed.
unfoldable pub vless_gets_through : (String → String) → Value → Value → Bool
unfolding agree listed_at any_of has reality_fits
vless_gets_through public_of client inbound =
    has "type" "vless" inbound
    && (reality_fits public_of client inbound
        && (agree ("listen_port" ∷ []) inbound ("server_port" ∷ []) client
            && (agree ("tls" ∷ "server_name" ∷ []) inbound ("tls" ∷ "server_name" ∷ []) client
                && (any_of
                      (λ u.
                        agree ("uuid" ∷ []) u ("uuid" ∷ []) client
                        && agree ("flow" ∷ []) u ("flow" ∷ []) client)
                      (listed_at ("users" ∷ []) inbound)
                    && any_of (λ s. agree [] s ("tls" ∷ "reality" ∷ "short_id" ∷ []) client)
                        (listed_at ("tls" ∷ "reality" ∷ "short_id" ∷ []) inbound)))))

-- A Hysteria2 client does: TLS is on at both ends, the port is the same, some user of the inbound has its
-- password, and both sides obfuscate alike.
unfoldable pub hysteria_gets_through : Value → Value → Bool
unfolding agree agree_if_any listed_at any_of has is_on
hysteria_gets_through client inbound =
    has "type" "hysteria2" inbound
    && (is_on ("tls" ∷ "enabled" ∷ []) inbound
        && (is_on ("tls" ∷ "enabled" ∷ []) client
            && (agree ("listen_port" ∷ []) inbound ("server_port" ∷ []) client
                && (any_of (λ u. agree ("password" ∷ []) u ("password" ∷ []) client)
                      (listed_at ("users" ∷ []) inbound)
                    && (agree_if_any ("obfs" ∷ "type" ∷ []) inbound client
                        && agree_if_any ("obfs" ∷ "password" ∷ []) inbound client)))))

-- an outbound that is no proxy leads to no server
unfoldable pub connects : (String → String) → Value → Value → Bool
unfolding vless_gets_through hysteria_gets_through
connects public_of server client =
    if has "type" "vless" client
    then any_of (vless_gets_through public_of client) (elements_at "inbounds" server)
    else if has "type" "hysteria2" client
    then any_of (hysteria_gets_through client) (elements_at "inbounds" server)
    else true

unfoldable pub all_connect : (String → String) → Value → List Value → Bool
unfolding connects
all_connect public_of server [] = true
all_connect public_of server (o ∷ os) =
    connects public_of server o && all_connect public_of server os
