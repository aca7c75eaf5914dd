-- ===== src/CompatConfig/Render/Uri.antt =====
-- crates/compat-config/src/render.rs: the links that a client imports. A text is the list of its bytes.
pub mod Reader
pub mod Digits
pub mod Percent
pub mod Splitting
pub mod Assembled
pub mod RoundTrip
use Prim.Native.Char.{code}
use vpn.Prelude.{
  ℕ, zero, suc, ◌+◌, ◌*◌, ◌/◌, ◌%◌, String, Bool, ◌||◌, ◌&&◌, ltb, leb, nat_eq, if◌then◌else◌, List,
  [], ◌∷◌, ◌++◌, Option, none, some, Result, ok, err, ◌>>=◌,
}
use vpn.CompatConfig.Model.{
  CompatUser, CompatError, wrong_transport_for_endpoint, CompatEndpoint, CompatTransport,
  vless_reality, hysteria2, PublicParameters, reality, hysteria2_parameters,
}
use vpn.CompatConfig.Render.{sni}

-- the UTF-8 of a code point
abbrev pub utf8 : ℕ → List ℕ
utf8 c =
    if ltb c 0x80
    then c ∷ []
    else if ltb c 0x800
    then (0xc0 + c / 0x40) ∷ (0x80 + c % 0x40) ∷ []
    else if ltb c 0x10000
    then (0xe0 + c / 0x1000) ∷ (0x80 + c / 0x40 % 0x40) ∷ (0x80 + c % 0x40) ∷ []
    else (0xf0 + c / 0x40000)
      ∷ (0x80 + c / 0x1000 % 0x40)
      ∷ (0x80 + c / 0x40 % 0x40)
      ∷ (0x80 + c % 0x40)
      ∷ []

-- `str::as_bytes`
abbrev pub bytes : String → List ℕ
bytes String.[] = []
bytes (String.◌∷◌ c s) = utf8 (code c) ++ bytes s

-- a number in decimal, of at most so many digits
unfoldable pub digits : ℕ → ℕ → List ℕ
digits zero n = []
digits (suc most) n =
    let front = digits most (n / 10) in
    if ltb n 10 then (48 + n) ∷ [] else front ++ (48 + n % 10) ∷ []

-- A u16 has five digits at most.
abbrev pub port_text : ℕ → List ℕ
port_text = digits 5

-- letters, digits and `-._~`
unfoldable pub is_unreserved : ℕ → Bool
is_unreserved b =
    (leb 65 b && leb b 90)
    || ((leb 97 b && leb b 122)
        || ((leb 48 b && leb b 57)
            || (nat_eq b 45 || (nat_eq b 46 || (nat_eq b 95 || nat_eq b 126)))))

unfoldable pub hex_upper : ℕ → ℕ
hex_upper n = if ltb n 10 then 48 + n else 55 + n

unfoldable pub percent_encode_label : List ℕ → List ℕ
unfolding is_unreserved hex_upper
percent_encode_label [] = []
percent_encode_label (b ∷ bs) =
    (if is_unreserved b then b ∷ [] else 37 ∷ hex_upper (b / 16) ∷ hex_upper (b % 16) ∷ [])
    ++ percent_encode_label bs

unfoldable pub vless_uri_with :
    CompatUser → CompatEndpoint → PublicParameters → Result CompatError (List ℕ)
unfolding digits sni percent_encode_label
vless_uri_with user ep (hysteria2_parameters obfs) = err wrong_transport_for_endpoint
vless_uri_with user ep (reality public_key short_id fingerprint) = ok (
    bytes "vless://"
    ++ (bytes user.vless_uuid
        ++ (bytes "@"
            ++ (bytes ep.host
                ++ (bytes ":"
                    ++ (port_text ep.port
                        ++ (bytes "?encryption=none&security=reality&sni="
                            ++ (bytes (sni ep)
                                ++ (bytes "&fp="
                                    ++ (bytes fingerprint
                                        ++ (bytes "&pbk="
                                            ++ (bytes public_key
                                                ++ (bytes "&sid="
                                                    ++ (bytes short_id
                                                        ++ (bytes "&type=tcp&flow=xtls-rprx-vision#"
                                                            ++ percent_encode_label
                                                            (bytes ep.label))))))))))))))))

unfoldable pub render_vless_reality_uri : CompatUser → CompatEndpoint → Result CompatError (List ℕ)
unfolding vless_uri_with
render_vless_reality_uri user ep = vless_uri_with user ep ep.public_parameters

unfoldable pub with_uri_obfs : Option String → List ℕ → List ℕ
with_uri_obfs none rest = rest
with_uri_obfs (some pw) rest = bytes "&obfs=salamander&obfs-password=" ++ (bytes pw ++ rest)

unfoldable pub hysteria2_uri_with :
    CompatUser → CompatEndpoint → PublicParameters → Result CompatError (List ℕ)
unfolding digits sni percent_encode_label with_uri_obfs
hysteria2_uri_with user ep (reality public_key short_id fingerprint) =
    err wrong_transport_for_endpoint
hysteria2_uri_with user ep (hysteria2_parameters obfs_password) = ok (
    bytes "hysteria2://"
    ++ (bytes user.hysteria2_password
        ++ (bytes "@"
            ++ (bytes ep.host
                ++ (bytes ":"
                    ++ (port_text ep.port
                        ++ (bytes "?sni="
                            ++ (bytes (sni ep)
                                ++ (bytes "&insecure=0"
                                    ++ with_uri_obfs obfs_password (
                                        bytes "#" ++ percent_encode_label (bytes ep.label)))))))))))

unfoldable pub render_hysteria2_uri : CompatUser → CompatEndpoint → Result CompatError (List ℕ)
unfolding hysteria2_uri_with
render_hysteria2_uri user ep = hysteria2_uri_with user ep ep.public_parameters

unfoldable pub uri_with :
    CompatUser → CompatEndpoint → CompatTransport → Result CompatError (List ℕ)
unfolding render_vless_reality_uri render_hysteria2_uri
uri_with user ep vless_reality = render_vless_reality_uri user ep
uri_with user ep hysteria2 = render_hysteria2_uri user ep

-- `lines.join("\n")`
unfoldable pub join_lines : List (List ℕ) → List ℕ
join_lines [] = []
join_lines (l ∷ []) = l
join_lines (l ∷ m ∷ ls) = l ++ 10 ∷ join_lines (m ∷ ls)

unfoldable pub uri_lines : CompatUser → List CompatEndpoint → Result CompatError (List (List ℕ))
unfolding uri_with
uri_lines user [] = ok []
uri_lines user (ep ∷ eps) = do
  uri ← uri_with user ep ep.transport
  rest ← uri_lines user eps
  ok (uri ∷ rest)

unfoldable pub render_uri_list : CompatUser → List CompatEndpoint → Result CompatError (List ℕ)
unfolding uri_lines join_lines
render_uri_list user endpoints = do lines ← uri_lines user endpoints; ok (join_lines lines)
