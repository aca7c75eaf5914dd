-- ===== src/CompatConfig/Render/Connects/Outbounds.antt =====
-- The outbounds of a client fit the inbounds of the server (crates/compat-config/src/render.rs and
-- server.rs).
use mathlib.Core.List.{Memᴰ}
use vpn.Prelude.{
  ℕ, ◌≡◌, refl, ap, String, string_Eq, ◌==◌, true, false, ◌&&◌, List, [], ◌∷◌, map, keep, keep-mem,
  Option, none, some, arith,
}
use vpn.CompatConfig.Model.{
  CompatUser, CompatEndpoint, is_active, RealityServerParams, Hysteria2ServerParams,
}
use vpn.CompatConfig.Server.Json.{Value, bool, num, str, array, object, get, elements}
use vpn.CompatConfig.Server.Reading.{has, any_of, elements_at, is_text, is_option_text}
use vpn.CompatConfig.Server.Accepts.{optional_fields, obfs_object}
use vpn.CompatConfig.Server.{
  ServerPorts, vless_user, hysteria_user, vless_inbound, hysteria_inbound,
  render_singbox_server_config,
}
use vpn.CompatConfig.Render.{
  SelectionProfile, sni, vless_outbound, hysteria_outbound, urltest_group, selector,
}
use vpn.CompatConfig.Render.Connects.{
  at_path, agree, agree_if_any, listed_at, vless_gets_through, hysteria_gets_through, connects,
  all_connect, reality_fits, is_on, is_true, is_key_of,
}
use vpn.CompatConfig.Render.Connects.Lists.{string_refl, any_of-array}

module _ (public_of : String → String) (users : List CompatUser) (u : CompatUser) (now : ℕ)
    (stored : Memᴰ u users) (active : is_active u now ≡ true) where
  vless_connects :
      (reality : RealityServerParams) (ports : ServerPorts) (ep : CompatEndpoint)
      (public_key short_id : String)
      → Memᴰ short_id reality.short_ids
      → public_of reality.private_key_hex ≡ public_key
      → ep.port ≡ ports.vless_reality_port
      → ep.server_name ≡ some reality.handshake_server
      → vless_gets_through public_of
          (vless_outbound u ep public_key short_id "chrome")
          (vless_inbound (keep (λ v. is_active v now) users) reality ports)
        ≡ true
  unfolding vless_gets_through vless_outbound vless_inbound agree at_path listed_at has sni
      vless_user reality_fits is_on is_true is_key_of
  vless_connects reality ports ep public_key short_id listed paired port name =
      let client = vless_outbound u ep public_key short_id "chrome" in
      let in_keep = keep-mem (λ v. is_active v now) stored active in
      let user =
        any_of-array
          (λ v.
            agree ("uuid" ∷ []) v ("uuid" ∷ []) client
            && agree ("flow" ∷ []) v ("flow" ∷ []) client)
          vless_user (keep (λ v. is_active v now) users) u in_keep
          (ground (arith, string_refl u.vless_uuid)) in
      let id =
        any_of-array (λ s. agree [] s ("tls" ∷ "reality" ∷ "short_id" ∷ []) client) str
          reality.short_ids short_id listed (string_refl short_id) in
      ground (
        arith,
        user,
        id,
        string_refl reality.handshake_server,
        (string_Eq.beq_iff (public_of reality.private_key_hex) public_key).1 paired,
      )

  -- what a Hysteria2 client meets at the inbound, whatever optional fields are set there
  hysteria_fields :
      (active_users : List CompatUser) (hysteria : Hysteria2ServerParams) (ports : ServerPorts)
      → let v = hysteria_inbound active_users hysteria ports in
        (get "type" v ≡ some (str "hysteria2"))
        × (get "users" v ≡ some (array (map hysteria_user active_users)))
        × (get "listen_port" v ≡ some (num ports.hysteria2_port))
        × (get "obfs" v ≡ obfs_object hysteria.obfs_password)
        × (is_on ("tls" ∷ "enabled" ∷ []) v ≡ true)
  unfolding hysteria_inbound is_on at_path is_true
  hysteria_fields active_users hysteria ports =
      let (kind, us, listen, obfs, tls) =
        optional_fields hysteria.masquerade_dir_path hysteria.obfs_password hysteria.up_mbps
          hysteria.down_mbps (str "hysteria2") (num ports.hysteria2_port)
          (array (map hysteria_user active_users))
          (object (
            ("enabled", bool true)
            ∷ ("certificate_path", str hysteria.tls_cert_path)
            ∷ ("key_path", str hysteria.tls_key_path)
            ∷ [])) in
      (kind, us, listen, obfs, ap (λ v. is_true (at_path ("enabled" ∷ []) v)) tls)

  obfs_agrees :
      (ep : CompatEndpoint) (obfs : Option String) (inbound : Value)
      → get "obfs" inbound ≡ obfs_object obfs
      → let client = hysteria_outbound u ep obfs in
        (agree_if_any ("obfs" ∷ "type" ∷ []) inbound client ≡ true)
        × (agree_if_any ("obfs" ∷ "password" ∷ []) inbound client ≡ true)
  unfolding agree_if_any at_path obfs_object hysteria_outbound
  obfs_agrees ep none inbound e = (
    ground (arith, ap (at_path ("type" ∷ [])) e),
    ground (arith, ap (at_path ("password" ∷ [])) e),
  )
  obfs_agrees ep (some pw) inbound e = (
    ground (arith, ap (at_path ("type" ∷ [])) e, string_refl "salamander"),
    ground (arith, ap (at_path ("password" ∷ [])) e, string_refl pw),
  )

  client_fields :
      (ep : CompatEndpoint) (obfs : Option String)
      → let client = hysteria_outbound u ep obfs in
        (get "server_port" client ≡ some (num ep.port))
        × (get "password" client ≡ some (str u.hysteria2_password))
        × (get "type" client ≡ some (str "hysteria2"))
        × (is_on ("tls" ∷ "enabled" ∷ []) client ≡ true)
  unfolding hysteria_outbound is_on at_path is_true
  client_fields ep none = (refl, refl, refl, refl)
  client_fields ep (some pw) = (refl, refl, refl, refl)

  hysteria_connects :
      (hysteria : Hysteria2ServerParams) (ports : ServerPorts) (ep : CompatEndpoint)
      → ep.port ≡ ports.hysteria2_port
      → hysteria_gets_through
          (hysteria_outbound u ep hysteria.obfs_password)
          (hysteria_inbound (keep (λ v. is_active v now) users) hysteria ports)
        ≡ true
  unfolding hysteria_gets_through agree at_path listed_at has is_option_text is_text hysteria_user
  hysteria_connects hysteria ports ep port =
      let in_keep = keep-mem (λ v. is_active v now) stored active in
      let (kind, us, listen, obfs, server_tls) =
        hysteria_fields (keep (λ v. is_active v now) users) hysteria ports in
      let (same_type, same_password) =
        obfs_agrees ep hysteria.obfs_password
          (hysteria_inbound (keep (λ v. is_active v now) users) hysteria ports) obfs in
      let listed_users =
        ap (λ o. elim o as (λ o. List Value) [ none ↦ [] | some w ↦ elements w ]) us in
      let client = hysteria_outbound u ep hysteria.obfs_password in
      let (client_port, client_password, _, client_tls) = client_fields ep hysteria.obfs_password in
      let user =
        any_of-array (λ v. agree ("password" ∷ []) v ("password" ∷ []) client) hysteria_user
          (keep (λ v. is_active v now) users) u in_keep
          (ground (arith, client_password, string_refl u.hysteria2_password)) in
      ground (
        arith,
        ap (is_option_text "hysteria2") kind,
        ap (any_of (λ v. agree ("password" ∷ []) v ("password" ∷ []) client)) listed_users,
        user,
        listen,
        client_port,
        same_type,
        same_password,
        server_tls,
        client_tls,
      )

  pub hysteria_type :
      (ep : CompatEndpoint) (obfs : Option String) (k : String)
      → has "type" k (hysteria_outbound u ep obfs) ≡ ("hysteria2" == k)
  unfolding has is_option_text is_text
  hysteria_type ep obfs k = ap (is_option_text k) (client_fields ep obfs).2

  not_a_proxy :
      (server client : Value)
      → has "type" "vless" client ≡ false
      → has "type" "hysteria2" client ≡ false
      → connects public_of server client ≡ true
  unfolding connects
  not_a_proxy server client a b = ground arith

  module _ (reality : RealityServerParams) (hysteria : Hysteria2ServerParams) (ports : ServerPorts)
      (ep : CompatEndpoint) where
    pub connects-vless :
        (public_key short_id : String)
        → Memᴰ short_id reality.short_ids
        → public_of reality.private_key_hex ≡ public_key
        → ep.port ≡ ports.vless_reality_port
        → ep.server_name ≡ some reality.handshake_server
        → connects public_of
            (render_singbox_server_config users reality hysteria ports now)
            (vless_outbound u ep public_key short_id "chrome")
          ≡ true
    unfolding connects render_singbox_server_config any_of has is_option_text is_text elements_at
        vless_outbound
    connects-vless public_key short_id listed paired port name =
        ground (arith, vless_connects reality ports ep public_key short_id listed paired port name)

    pub connects-hysteria :
        ep.port ≡ ports.hysteria2_port
        → connects public_of
            (render_singbox_server_config users reality hysteria ports now)
            (hysteria_outbound u ep hysteria.obfs_password)
          ≡ true
    unfolding connects render_singbox_server_config any_of elements_at
    connects-hysteria port = ground (
      arith,
      hysteria_type ep hysteria.obfs_password "vless",
      hysteria_type ep hysteria.obfs_password "hysteria2",
      hysteria_connects hysteria ports ep port,
    )

  -- the groups and the direct outbound are no proxies
  pub others_connect :
      (server : Value) (eps : List CompatEndpoint) (profile : SelectionProfile)
      → all_connect public_of server (
          urltest_group eps
          ∷ selector profile eps
          ∷ object (("type", str "direct") ∷ ("tag", str "direct") ∷ [])
          ∷ [])
        ≡ true
  unfolding all_connect has is_option_text is_text urltest_group selector
  others_connect server eps profile = ground (
    arith,
    not_a_proxy server (urltest_group eps) refl refl,
    not_a_proxy server (selector profile eps) refl refl,
    not_a_proxy server (object (("type", str "direct") ∷ ("tag", str "direct") ∷ [])) refl refl,
  )
