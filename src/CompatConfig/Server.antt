-- ===== src/CompatConfig/Server.antt =====
-- crates/compat-config/src/server.rs: the configuration that the server's sing-box is given.
pub mod Json
pub mod Reading
pub mod Accepts
pub mod Apply
use vpn.Prelude.{ℕ, String, Bool, true, List, [], ◌∷◌, map, keep, Option, none, some}
use vpn.CompatConfig.Model.{CompatUser, is_active, RealityServerParams, Hysteria2ServerParams}
use Json.{Value, bool, num, str, array, object, put}

pub record ServerPorts : Type 0 where
  pub vless_reality_port : ℕ
  pub hysteria2_port : ℕ

unfoldable pub vless_user : CompatUser → Value
vless_user u =
    object (("name", str u.id) ∷ ("uuid", str u.vless_uuid) ∷ ("flow", str "xtls-rprx-vision") ∷ [])

unfoldable pub hysteria_user : CompatUser → Value
hysteria_user u = object (("name", str u.id) ∷ ("password", str u.hysteria2_password) ∷ [])

-- the disguise of connections that are refused
unfoldable pub with_masquerade : Option String → Value → Value
with_masquerade none v = v
with_masquerade (some dir) v =
    put "masquerade" (object (("type", str "file") ∷ ("directory", str dir) ∷ [])) v

unfoldable pub with_obfs : Option String → Value → Value
with_obfs none v = v
with_obfs (some password) v =
    put "obfs" (object (("type", str "salamander") ∷ ("password", str password) ∷ [])) v

-- a fixed rate, when both directions have one
unfoldable pub with_bandwidth : Option ℕ → Option ℕ → Value → Value
with_bandwidth (some up) (some down) v =
    put "ignore_client_bandwidth" (bool true)
      (put "down_mbps" (num down) (put "up_mbps" (num up) v))
with_bandwidth none _ v = v
with_bandwidth (some _) none v = v

unfoldable pub hysteria_inbound : List CompatUser → Hysteria2ServerParams → ServerPorts → Value
unfolding with_masquerade with_obfs with_bandwidth
hysteria_inbound active hysteria ports = with_bandwidth hysteria.up_mbps hysteria.down_mbps (
    with_obfs hysteria.obfs_password (
      with_masquerade hysteria.masquerade_dir_path (
        object (
          ("type", str "hysteria2")
          ∷ ("tag", str "hysteria2-in")
          ∷ ("listen", str "::")
          ∷ ("listen_port", num ports.hysteria2_port)
          ∷ ("users", array (map hysteria_user active))
          ∷ (
            "tls",
            object (
                ("enabled", bool true)
                ∷ ("certificate_path", str hysteria.tls_cert_path)
                ∷ ("key_path", str hysteria.tls_key_path)
                ∷ []),
          )
          ∷ []))))

unfoldable pub vless_inbound : List CompatUser → RealityServerParams → ServerPorts → Value
vless_inbound active reality ports = object (
    ("type", str "vless")
    ∷ ("tag", str "vless-reality-in")
    ∷ ("listen", str "::")
    ∷ ("listen_port", num ports.vless_reality_port)
    ∷ ("users", array (map vless_user active))
    ∷ (
      "tls",
      object (
          ("enabled", bool true)
          ∷ ("server_name", str reality.handshake_server)
          ∷ (
            "reality",
            object (
                ("enabled", bool true)
                ∷ (
                  "handshake",
                  object (
                      ("server", str reality.handshake_server)
                      ∷ ("server_port", num reality.handshake_port)
                      ∷ []),
                )
                ∷ ("private_key", str reality.private_key_hex)
                ∷ ("short_id", array (map str reality.short_ids))
                ∷ []),
          )
          ∷ []),
    )
    ∷ [])

unfoldable pub render_singbox_server_config :
    List CompatUser → RealityServerParams → Hysteria2ServerParams → ServerPorts → ℕ → Value
unfolding is_active vless_inbound hysteria_inbound
render_singbox_server_config users reality hysteria ports now_unix =
    let active = keep (λ u. is_active u now_unix) users in
    object (
      ("log", object (("level", str "warn") ∷ ("timestamp", bool true) ∷ []))
      ∷ (
        "inbounds",
        array (vless_inbound active reality ports ∷ hysteria_inbound active hysteria ports ∷ []),
      )
      ∷ ("outbounds", array (object (("type", str "direct") ∷ ("tag", str "direct") ∷ []) ∷ []))
      ∷ [])
