-- ===== src/Examples/Render.antt =====
-- Theorems on what clients are given (crates/compat-config/src/render.rs) for one user of two.
use vpn.Prelude.{string_Eq, nat_Eq, ◌==◌, if◌then◌else◌, String, ◌≡◌, refl, List, none, some, arith}
use vpn.CompatConfig.Model.{CompatEndpoint, vless_reality, reality, hysteria2_parameters}
use vpn.CompatConfig.Render.{
  sni, performance, standard_endpoints, client_document,
  render_singbox_client_subscription_with_profile,
}
use vpn.CompatConfig.Render.References.{references, tags, references_resolve}
use vpn.CompatConfig.Render.References.Members.{AllIn}
use vpn.CompatConfig.Render.Uri.{bytes, render_vless_reality_uri, render_hysteria2_uri}
use vpn.CompatConfig.Render.Uri.RoundTrip.{
  imported, vless_params, hysteria2_params, render_vless_reality_uri-read,
  render_hysteria2_uri-read,
}
use vpn.CompatConfig.Render.Uri.Splitting.{lacks}
use vpn.CompatConfig.Render.Uri.Assembled.{are_separate, is_wellformed}
use vpn.Rendezvous.RateLimiter
use vpn.Subscription.{Rendering}
use vpn.Examples.Users.{host, rendering}
use vpn.Examples.Server.{bob, params, hysteria2, ports}

abbrev given : List CompatEndpoint
given =
    standard_endpoints "vpn.example.net" ports.vless_reality_port ports.hysteria2_port "public"
      "0a1b2c3d" params.handshake_server hysteria2.obfs_password

-- the service with these endpoints, and the first user of a store
abbrev serving : Rendering
serving = record rendering { endpoints = given }

-- the key of the server, and another
abbrev public_of : String → String
public_of key = if key == params.private_key_hex then "public" else "other"

references_resolve_example :
    AllIn
      (references (client_document bob given performance))
      (tags (client_document bob given performance))
references_resolve_example =
    references_resolve bob given performance (client_document bob given performance)
      (unfold render_singbox_client_subscription_with_profile in refl)

-- a VLESS endpoint whose label has a space, a separator and a letter of two bytes
abbrev labelled : CompatEndpoint
labelled = record {
  id = "reality-1";
  transport = vless_reality;
  host = "vpn.example.net";
  port = 443;
  server_name = some "www.example.com";
  label = "Zürich #1";
  public_parameters = reality "public" "0a1b2c3d" "chrome";
}

render_vless_reality_uri-read_example :
    imported (render_vless_reality_uri bob labelled)
    ≡ some (record {
      scheme = bytes "vless";
      user = bytes "uuid_b";
      host = bytes "vpn.example.net";
      port = 443;
      params = vless_params "www.example.com" "chrome" "public" "0a1b2c3d";
      fragment = bytes "Zürich #1";
    })
unfolding sni
render_vless_reality_uri-read_example =
    render_vless_reality_uri-read bob labelled "public" "0a1b2c3d" "chrome" refl
      (unfold is_wellformed are_separate lacks in refl) (omega arith) (ground arith)

abbrev fast : CompatEndpoint
fast = record labelled {
  port = 8443;
  server_name = none;
  public_parameters = hysteria2_parameters (some "obfs");
}

render_hysteria2_uri-read_example :
    imported (render_hysteria2_uri bob fast)
    ≡ some (record {
      scheme = bytes "hysteria2";
      user = bytes "secret_b";
      host = bytes "vpn.example.net";
      port = 8443;
      params = hysteria2_params "vpn.example.net" (some "obfs");
      fragment = bytes "Zürich #1";
    })
unfolding sni
render_hysteria2_uri-read_example =
    render_hysteria2_uri-read bob fast (some "obfs") refl
      (unfold is_wellformed are_separate lacks in refl) (omega arith) (ground arith)
