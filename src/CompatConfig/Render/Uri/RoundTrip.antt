-- ===== src/CompatConfig/Render/Uri/RoundTrip.antt =====
-- An importer reads back what the links of crates/compat-config/src/render.rs were made of.
use vpn.Prelude.{
  ℕ, ◌<◌, ◌≡◌, refl, ap, ◌∙◌, String, true, List, [], ◌∷◌, Option, none, some, Result, ok, err,
}
use vpn.Common.Framing.RoundTrip.{IsBytes}
use vpn.CompatConfig.Model.{CompatUser, CompatError, CompatEndpoint, reality, hysteria2_parameters}
use vpn.CompatConfig.Render.{sni}
use vpn.CompatConfig.Render.Uri.{
  bytes, render_vless_reality_uri, hysteria2_uri_with, render_hysteria2_uri,
}
use vpn.CompatConfig.Render.Uri.Reader.{Uri, read_uri}
use vpn.CompatConfig.Render.Uri.Assembled.{is_wellformed, assemble, read_uri-assemble}

-- what an importer makes of the renderer's answer
abbrev pub imported : Result CompatError (List ℕ) → Option Uri
imported (ok text) = read_uri text
imported (err e) = none

abbrev pub vless_params : String → String → String → String → List (List ℕ × List ℕ)
vless_params server_name fingerprint public_key short_id =
    (bytes "encryption", bytes "none")
    ∷ (bytes "security", bytes "reality")
    ∷ (bytes "sni", bytes server_name)
    ∷ (bytes "fp", bytes fingerprint)
    ∷ (bytes "pbk", bytes public_key)
    ∷ (bytes "sid", bytes short_id)
    ∷ (bytes "type", bytes "tcp")
    ∷ (bytes "flow", bytes "xtls-rprx-vision")
    ∷ []

-- A VLESS endpoint with Reality parameters, whose texts hold no separator of a link and whose port is a
-- u16, has a link; the reader takes from it the user's UUID, the endpoint's host and port, the Reality
-- parameters of the endpoint, and the label itself, whatever bytes the label has.
pub render_vless_reality_uri-read :
    (user : CompatUser) (ep : CompatEndpoint) (public_key short_id fingerprint : String)
    → ep.public_parameters ≡ reality public_key short_id fingerprint
    → is_wellformed
        (bytes "vless")
        (bytes user.vless_uuid)
        (bytes ep.host)
        (vless_params (sni ep) fingerprint public_key short_id)
      ≡ true
    → ep.port < 65536
    → IsBytes (bytes ep.label)
    → imported (render_vless_reality_uri user ep)
      ≡ some (record {
        scheme = bytes "vless";
        user = bytes user.vless_uuid;
        host = bytes ep.host;
        port = ep.port;
        params = vless_params (sni ep) fingerprint public_key short_id;
        fragment = bytes ep.label;
      })
unfolding render_vless_reality_uri
render_vless_reality_uri-read user ep public_key short_id fingerprint p w h b = rw p (
    read_uri-assemble (bytes "vless") (bytes user.vless_uuid) (bytes ep.host) ep.port
      (bytes "encryption", bytes "none") _ (bytes ep.label) w h b)

-- The obfuscation's parameters stand in the link when there is one.
abbrev pub obfs_params : Option String → List (List ℕ × List ℕ)
obfs_params none = []
obfs_params (some pw) = (bytes "obfs", bytes "salamander") ∷ (bytes "obfs-password", bytes pw) ∷ []

abbrev pub hysteria2_params : String → Option String → List (List ℕ × List ℕ)
hysteria2_params server_name obfs_password =
    (bytes "sni", bytes server_name) ∷ (bytes "insecure", bytes "0") ∷ obfs_params obfs_password

hysteria2_link :
    (user : CompatUser) (ep : CompatEndpoint) (obfs_password : Option String)
    → hysteria2_uri_with user ep (hysteria2_parameters obfs_password)
      ≡ ok (
          assemble
            (bytes "hysteria2")
            (bytes user.hysteria2_password)
            (bytes ep.host)
            ep.port
            (hysteria2_params (sni ep) obfs_password)
            (bytes ep.label))
unfolding hysteria2_uri_with
hysteria2_link user ep none = refl
hysteria2_link user ep (some pw) = refl

-- A Hysteria2 endpoint whose texts hold no separator of a link, and whose port is a u16, has a link; the
-- reader takes from it the user's password, the endpoint's host and port, the server name, that the
-- certificate is to be checked, the obfuscation's password exactly when the endpoint has one, and the
-- label itself.
pub render_hysteria2_uri-read :
    (user : CompatUser) (ep : CompatEndpoint) (obfs_password : Option String)
    → ep.public_parameters ≡ hysteria2_parameters obfs_password
    → is_wellformed
        (bytes "hysteria2")
        (bytes user.hysteria2_password)
        (bytes ep.host)
        (hysteria2_params (sni ep) obfs_password)
      ≡ true
    → ep.port < 65536
    → IsBytes (bytes ep.label)
    → imported (render_hysteria2_uri user ep)
      ≡ some (record {
        scheme = bytes "hysteria2";
        user = bytes user.hysteria2_password;
        host = bytes ep.host;
        port = ep.port;
        params = hysteria2_params (sni ep) obfs_password;
        fragment = bytes ep.label;
      })
unfolding render_hysteria2_uri
render_hysteria2_uri-read user ep obfs_password p w h b =
    ap (λ q. imported (hysteria2_uri_with user ep q)) p
    ∙ ap imported (hysteria2_link user ep obfs_password)
    ∙ read_uri-assemble (bytes "hysteria2") (bytes user.hysteria2_password) (bytes ep.host) ep.port
        (bytes "sni", bytes (sni ep)) _ (bytes ep.label) w h b
