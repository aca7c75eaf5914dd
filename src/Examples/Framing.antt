-- ===== src/Examples/Framing.antt =====
-- Theorems on the framing (crates/common/src/framing.rs) at concrete headers.
use vpn.Prelude.{ℕ, ◌≡◌, refl, ◌++◌, List, [], ◌∷◌, none, some, ok, arith}
use vpn.Common.Framing.{encode_destination, decode_destination, read_destination, panicked}
use vpn.Common.Framing.RoundTrip.{decode-encode, decode-prefix}
use vpn.Common.Framing.Stream.{Agrees, read-decode}

-- the host "ab", and its header with the port 443
abbrev host : List ℕ
host = 97 ∷ 98 ∷ []

abbrev header : List ℕ
header = 1 ∷ 0 ∷ 2 ∷ 97 ∷ 98 ∷ 1 ∷ 187 ∷ []

header_encoded : encode_destination host 443 ≡ ok header
unfolding encode_destination
header_encoded = refl

decode-encode_example : decode_destination (header ++ (5 ∷ 6 ∷ [])) ≡ ok (some (host, 443, 7))
unfolding vpn.Common.Framing.is_utf8
decode-encode_example = decode-encode host 443 header (5 ∷ 6 ∷ []) refl (omega arith) header_encoded

decode-prefix_example : decode_destination (1 ∷ 0 ∷ 2 ∷ 97 ∷ []) ≡ ok none
decode-prefix_example =
    decode-prefix host 443 (1 ∷ 0 ∷ 2 ∷ 97 ∷ []) 98 (1 ∷ 187 ∷ []) header_encoded

read-decode_example : Agrees (decode_destination header) (read_destination header) header
read-decode_example = read-decode header
