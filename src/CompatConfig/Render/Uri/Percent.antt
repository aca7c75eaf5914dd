-- ===== src/CompatConfig/Render/Uri/Percent.antt =====
-- The encoded label decodes to the label (crates/compat-config/src/render.rs).
use vpn.Prelude.{
  ℕ, ◌+◌, ◌*◌, ◌/◌, ◌%◌, ◌<◌, ◌≡◌, refl, inl, inr, true, List, [], ◌∷◌, some, Bool-cases, arith,
}
use vpn.Common.Framing.RoundTrip.{IsBytes}
use vpn.CompatConfig.Render.Uri.{is_unreserved, hex_upper, percent_encode_label}
use vpn.CompatConfig.Render.Uri.Reader.{hex_value, percent_decode}

hex_value-hex_upper : (n : ℕ) → n < 16 → hex_value (hex_upper n) ≡ some n
unfolding hex_value hex_upper
hex_value-hex_upper n h = ground arith

plain_byte :
    (b : ℕ) (bs rest : List ℕ)
    → is_unreserved b ≡ true
    → percent_decode bs ≡ some rest
    → percent_decode (b ∷ bs) ≡ some (b ∷ rest)
unfolding percent_decode is_unreserved
plain_byte b [] rest u h = ground arith
plain_byte b (c ∷ []) rest u h = ground arith
plain_byte b (c ∷ d ∷ bs) rest u h = ground arith

joined : (b : ℕ) → b / 16 * 16 + b % 16 ≡ b
joined b = omega arith

escaped_byte :
    (b : ℕ) (bs rest : List ℕ)
    → b < 256
    → percent_decode rest ≡ some bs
    → percent_decode (37 ∷ hex_upper (b / 16) ∷ hex_upper (b % 16) ∷ rest) ≡ some (b ∷ bs)
unfolding percent_decode
escaped_byte b bs rest h ih =
    rw (hex_value-hex_upper (b / 16) (omega arith))
      (rw (hex_value-hex_upper (b % 16) (omega arith)) (rw ih (rw (joined b) refl)))

pub percent_decode-encode :
    (bs : List ℕ) → IsBytes bs → percent_decode (percent_encode_label bs) ≡ some bs
unfolding percent_encode_label
percent_decode-encode [] v = unfold percent_decode in refl
percent_decode-encode (b ∷ bs) v =
    let ih = percent_decode-encode bs v.1 in
    elim (Bool-cases (is_unreserved b)) [
      | inl u ↦ rw u (plain_byte b (percent_encode_label bs) bs u ih)
      | inr u ↦ rw u (escaped_byte b bs (percent_encode_label bs) v.0 ih)
    ]
