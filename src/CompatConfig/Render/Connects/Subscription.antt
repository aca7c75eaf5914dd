-- ===== src/CompatConfig/Render/Connects/Subscription.antt =====
-- What a user is given for the endpoints of a deployment works with the server's configuration
-- (crates/compat-config/src/render.rs and server.rs).
use mathlib.Core.List.{Memᴰ}
use vpn.Prelude.{ℕ, ◌≡◌, refl, ap, ◌∙◌, String, string_Eq, true, List, [], ◌∷◌, some, ok}
use vpn.CompatConfig.Model.{
  CompatUser, CompatError, CompatEndpoint, vless_reality, hysteria2, hysteria2_parameters,
  is_active, RealityServerParams, Hysteria2ServerParams,
}
use vpn.CompatConfig.Server.Json.{Value, str, object}
use vpn.CompatConfig.Server.Reading.{has, any_of, elements_at, is_text, is_option_text}
use vpn.CompatConfig.Server.{ServerPorts, render_singbox_server_config}
use vpn.CompatConfig.Render.{
  SelectionProfile, vless_outbound, hysteria_outbound, urltest_group, selector, standard_endpoints,
  client_document, render_singbox_client_subscription_with_profile,
}
use vpn.CompatConfig.Render.Connects.{all_connect}
use vpn.CompatConfig.Render.Connects.Lists.{any_of-first, any_of-second, all_connect-two}
use vpn.CompatConfig.Render.Connects.Outbounds.{
  hysteria_type, others_connect, connects-vless, connects-hysteria,
}

module _ (users : List CompatUser) (u : CompatUser) (now : ℕ) (stored : Memᴰ u users)
    (active : is_active u now ≡ true) (reality : RealityServerParams)
    (hysteria : Hysteria2ServerParams) (ports : ServerPorts)
    (public_host public_key short_id : String) (profile : SelectionProfile)
    (listed : Memᴰ short_id reality.short_ids) (public_of : String → String)
    (paired : public_of reality.private_key_hex ≡ public_key) where
  endpoints : List CompatEndpoint
  endpoints =
      standard_endpoints public_host ports.vless_reality_port ports.hysteria2_port public_key
        short_id reality.handshake_server hysteria.obfs_password

  reality_endpoint : CompatEndpoint
  reality_endpoint = record {
    id = "reality-1";
    transport = vless_reality;
    host = public_host;
    port = ports.vless_reality_port;
    server_name = some reality.handshake_server;
    label = "Reality";
    public_parameters = vpn.CompatConfig.Model.reality public_key short_id "chrome";
  }

  hysteria_endpoint : CompatEndpoint
  hysteria_endpoint = record {
    id = "hysteria2-1";
    transport = hysteria2;
    host = public_host;
    port = ports.hysteria2_port;
    server_name = some public_host;
    label = "Hysteria2";
    public_parameters = hysteria2_parameters hysteria.obfs_password;
  }

  vless_type :
      has "type" "vless" (vless_outbound u reality_endpoint public_key short_id "chrome") ≡ true
  unfolding has is_option_text is_text vless_outbound
  vless_type = refl

  outbounds_of :
      elements_at "outbounds" (client_document u endpoints profile)
      ≡ vless_outbound u reality_endpoint public_key short_id "chrome"
        ∷ hysteria_outbound u hysteria_endpoint hysteria.obfs_password
        ∷ urltest_group endpoints
        ∷ selector profile endpoints
        ∷ object (("type", str "direct") ∷ ("tag", str "direct") ∷ [])
        ∷ []
  unfolding client_document standard_endpoints endpoints reality_endpoint hysteria_endpoint
      elements_at
  outbounds_of = refl

  -- What an active user is given for the endpoints of a deployment works with what the server is
  -- given: there is an outbound of each transport, and each has an inbound that it gets through. The
  -- short id is taken to be one that the server knows, and the public key to be that of its private
  -- one.
  pub subscription_connects :
      (doc : Value) × (render_singbox_client_subscription_with_profile u
          (standard_endpoints public_host ports.vless_reality_port ports.hysteria2_port public_key
            short_id reality.handshake_server hysteria.obfs_password)
          profile
        ≡ ok doc)
      × (any_of (has "type" "vless") (elements_at "outbounds" doc) ≡ true)
      × (any_of (has "type" "hysteria2") (elements_at "outbounds" doc) ≡ true)
      × (all_connect public_of
            (render_singbox_server_config users reality hysteria ports now)
            (elements_at "outbounds" doc)
          ≡ true)
  unfolding render_singbox_client_subscription_with_profile endpoints
  subscription_connects =
      let server = render_singbox_server_config users reality hysteria ports now in
      let vless =
        connects-vless public_of users u now stored active reality hysteria ports reality_endpoint
          public_key short_id listed paired (unfold reality_endpoint in refl)
          (unfold reality_endpoint in refl) in
      let hyst =
        connects-hysteria public_of users u now stored active reality hysteria ports
          hysteria_endpoint (unfold hysteria_endpoint in refl) in
      (
        client_document u endpoints profile,
        refl,
        ap (any_of (has "type" "vless")) outbounds_of
            ∙ any_of-first (has "type" "vless") _ _ vless_type,
        ap (any_of (has "type" "hysteria2")) outbounds_of
            ∙ any_of-second (has "type" "hysteria2") _ _ _ (
                hysteria_type public_of users u now stored active hysteria_endpoint
                  hysteria.obfs_password "hysteria2"),
        ap (all_connect public_of server) outbounds_of
            ∙ all_connect-two public_of server _ _ _ vless hyst
                (others_connect public_of users u now stored active server endpoints profile),
      )
