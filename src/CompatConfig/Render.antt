-- ===== src/CompatConfig/Render.antt =====
-- crates/compat-config/src/render.rs: the configuration that a user's client is given.
pub mod Connects
pub mod References
pub mod Uri
use vpn.Prelude.{
  ℕ, String, string_Eq, ◌==◌, Bool, true, false, if◌then◌else◌, List, [], ◌∷◌, ◌++◌, map, Option,
  none, some, Result, ok,
}
use vpn.CompatConfig.Model.{
  CompatUser, CompatError, CompatEndpoint, CompatTransport, vless_reality, hysteria2,
  PublicParameters, reality, hysteria2_parameters,
}
use vpn.CompatConfig.Server.Json.{Value, bool, num, str, array, object, put}

pub data SelectionProfile : Type 0 where
  reliability performance auto : SelectionProfile

-- `SelectionProfile::parse`
unfoldable pub parse_profile : String → Option SelectionProfile
parse_profile s =
    if s == "reliability"
    then some reliability
    else if s == "performance"
    then some performance
    else if s == "auto"
    then some auto
    else none

unfoldable pub or_else {ℓ} : {A : Type ℓ} → Option A → Option A → Option A
or_else (some x) y = some x
or_else none y = y

unfoldable pub unwrap_or {ℓ} : {A : Type ℓ} → Option A → A → A
unwrap_or (some x) y = x
unwrap_or none y = y

-- the name that the client expects in the handshake
unfoldable pub sni : CompatEndpoint → String
unfolding unwrap_or
sni ep = unwrap_or ep.server_name ep.host

unfoldable pub is_transport : CompatTransport → CompatTransport → Bool
is_transport vless_reality vless_reality = true
is_transport hysteria2 hysteria2 = true
is_transport vless_reality hysteria2 = false
is_transport hysteria2 vless_reality = false

-- the label of the first endpoint of a transport
unfoldable pub first_tag : CompatTransport → List CompatEndpoint → Option String
unfolding is_transport
first_tag t [] = none
first_tag t (ep ∷ eps) =
    let rest = first_tag t eps in if is_transport ep.transport t then some ep.label else rest

abbrev pub labels : List CompatEndpoint → List String
labels = map (λ ep. ep.label)

unfoldable pub first_label : List String → Option String
first_label [] = none
first_label (l ∷ ls) = some l

unfoldable pub vless_outbound : CompatUser → CompatEndpoint → String → String → String → Value
unfolding sni
vless_outbound user ep public_key short_id fingerprint = object (
    ("type", str "vless")
    ∷ ("tag", str ep.label)
    ∷ ("server", str ep.host)
    ∷ ("server_port", num ep.port)
    ∷ ("uuid", str user.vless_uuid)
    ∷ ("flow", str "xtls-rprx-vision")
    ∷ ("packet_encoding", str "xudp")
    ∷ (
      "tls",
      object (
          ("enabled", bool true)
          ∷ ("server_name", str (sni ep))
          ∷ ("utls", object (("enabled", bool true) ∷ ("fingerprint", str fingerprint) ∷ []))
          ∷ (
            "reality",
            object (
                ("enabled", bool true)
                ∷ ("public_key", str public_key)
                ∷ ("short_id", str short_id)
                ∷ []),
          )
          ∷ []),
    )
    ∷ [])

unfoldable pub with_client_obfs : Option String → Value → Value
with_client_obfs none v = v
with_client_obfs (some pw) v =
    put "obfs" (object (("type", str "salamander") ∷ ("password", str pw) ∷ [])) v

unfoldable pub hysteria_outbound : CompatUser → CompatEndpoint → Option String → Value
unfolding sni with_client_obfs
hysteria_outbound user ep obfs_password = with_client_obfs obfs_password (
    object (
      ("type", str "hysteria2")
      ∷ ("tag", str ep.label)
      ∷ ("server", str ep.host)
      ∷ ("server_port", num ep.port)
      ∷ ("password", str user.hysteria2_password)
      ∷ (
        "tls",
        object (
            ("enabled", bool true) ∷ ("server_name", str (sni ep)) ∷ ("insecure", bool false) ∷ []),
      )
      ∷ []))

unfoldable pub outbound_with : CompatUser → CompatEndpoint → PublicParameters → Value
unfolding vless_outbound hysteria_outbound
outbound_with user ep (reality public_key short_id fingerprint) =
    vless_outbound user ep public_key short_id fingerprint
outbound_with user ep (hysteria2_parameters obfs_password) = hysteria_outbound user ep obfs_password

-- one endpoint: what it is rendered as goes by its parameters
unfoldable pub outbound : CompatUser → CompatEndpoint → Value
unfolding outbound_with
outbound user ep = outbound_with user ep ep.public_parameters

-- what the selector starts with
unfoldable pub default_tag : SelectionProfile → List CompatEndpoint → String
unfolding first_tag first_label or_else unwrap_or
default_tag reliability eps =
    unwrap_or (or_else (first_tag vless_reality eps) (first_label (labels eps))) "auto"
default_tag performance eps =
    unwrap_or
      (or_else (or_else (first_tag hysteria2 eps) (first_tag vless_reality eps))
        (first_label (labels eps)))
      "auto"
default_tag auto eps = "auto"

unfoldable pub urltest_group : List CompatEndpoint → Value
urltest_group eps = object (
    ("type", str "urltest")
    ∷ ("tag", str "auto")
    ∷ ("outbounds", array (map str (labels eps)))
    ∷ ("url", str "https://www.gstatic.com/generate_204")
    ∷ ("interval", str "1m")
    ∷ [])

unfoldable pub selector : SelectionProfile → List CompatEndpoint → Value
unfolding default_tag
selector profile eps = object (
    ("type", str "selector")
    ∷ ("tag", str "select")
    ∷ ("outbounds", array (map str (labels eps ++ "auto" ∷ [])))
    ∷ ("default", str (default_tag profile eps))
    ∷ [])

unfoldable pub client_document : CompatUser → List CompatEndpoint → SelectionProfile → Value
unfolding outbound urltest_group selector
client_document user endpoints profile = object (
    (
      "outbounds",
      array (
          map (outbound user) endpoints
          ++ (urltest_group endpoints
              ∷ selector profile endpoints
              ∷ object (("type", str "direct") ∷ ("tag", str "direct") ∷ [])
              ∷ [])),
    )
    ∷ ("route", object (("final", str "select") ∷ []))
    ∷ [])

-- no endpoint is refused
unfoldable pub render_singbox_client_subscription_with_profile :
    CompatUser → List CompatEndpoint → SelectionProfile → Result CompatError Value
unfolding client_document
render_singbox_client_subscription_with_profile user endpoints profile =
    ok (client_document user endpoints profile)

-- the two endpoints of a deployment
unfoldable pub standard_endpoints :
    String → ℕ → ℕ → String → String → String → Option String → List CompatEndpoint
standard_endpoints public_host reality_port hysteria_port public_key short_id handshake_server
      obfs_password =
    record {
      id = "reality-1";
      transport = vless_reality;
      host = public_host;
      port = reality_port;
      server_name = some handshake_server;
      label = "Reality";
      public_parameters = reality public_key short_id "chrome";
    }
    ∷ record {
      id = "hysteria2-1";
      transport = hysteria2;
      host = public_host;
      port = hysteria_port;
      server_name = some public_host;
      label = "Hysteria2";
      public_parameters = hysteria2_parameters obfs_password;
    }
    ∷ []
