-- ===== src/Examples/Codecs.antt =====
-- Small instances of the interfaces: a signature scheme, and codecs that know one value.
use mathlib.Core.List.{map}
use text.Mathlib.TextEquality.{eq_iff}
use vpn.Prelude.{
  ℕ, ◌+◌, ◌-◌, ◌≡◌, ◌↔◌, refl, ap, string_Eq, Bool, true, ◌&&◌, if◌then◌else◌, nat_eq, List, [],
  ◌∷◌, ◌++◌, Option, none, some, Eq, ◌==◌, nat_Eq, list_Eq, list_beq, list_beq_iff, arith,
}
use vpn.Crypto.{KeyCertificate}
use vpn.Crypto.Dalek.{Ed25519, Ed25519Laws}
use vpn.Crypto.Hex.{HexCodec, HexLaws, IsSolid, is_white}
use vpn.Config.{SignedBundle}
use vpn.Config.Wire.{EndpointDescriptor, RelayBundlePayload, PayloadJson, PayloadJsonLaws}
use vpn.RendezvousClient.{BundleJson, BundleJsonLaws}

-- A signature repeats the seed, which is the public key, and the message.
abbrev pub toy : Ed25519
toy = record {
  public_of = λ seed. seed;
  sign = λ seed message. seed ++ message;
  valid_key = λ key. true;
  check = λ key message signature. list_beq signature (key ++ message);
}

pub toy-laws : Ed25519Laws toy
toy-laws = record {
  public_valid = λ seed. refl;
  check-sign = λ seed message. (list_beq_iff (seed ++ message) (seed ++ message)).1 refl;
}

-- A digit for each byte, above the white space.
abbrev pub shifted : HexCodec
shifted = record { encode = map (λ b. b + 33); decode = λ cs. some (map (λ c. c - 33) cs) }

shift_back : (bs : List ℕ) → map (λ c. c - 33) (map (λ b. b + 33) bs) ≡ bs
shift_back [] = refl
shift_back (b ∷ bs) = rw (shift_back bs) (ap (λ x. x ∷ bs) (omega arith))

shifted-IsSolid : (bs : List ℕ) → IsSolid (map (λ b. b + 33) bs)
unfolding is_white
shifted-IsSolid [] = tt
shifted-IsSolid (b ∷ bs) = (ground arith, shifted-IsSolid bs)

pub shifted-laws : HexLaws shifted
shifted-laws = record {
  decode-encode = λ bs. ap some (shift_back bs);
  encode-IsSolid = shifted-IsSolid;
}

module _ {A : Type 0} ⦃e : Eq A⦄ (sample : A) where
  -- a codec that knows one value, written as one byte
  abbrev pub to_one : A → Option (List ℕ)
  to_one x = if x == sample then some (7 ∷ []) else none

  abbrev pub from_one : List ℕ → Option A
  from_one bytes = if list_beq bytes (7 ∷ []) then some sample else none

  pub from_one-to_one : (x : A) (bytes : List ℕ) → to_one x ≡ some bytes → from_one bytes ≡ some x
  from_one-to_one x bytes h = ground (arith, e.beq_iff x sample, list_beq_iff bytes (7 ∷ []))

abbrev descriptor_beq : EndpointDescriptor → EndpointDescriptor → Bool
descriptor_beq a b =
    (a.id == b.id)
    && (a.transport == b.transport)
    && (a.address == b.address)
    && (a.provider_tag == b.provider_tag)
    && list_beq a.capabilities b.capabilities
    && (a.cert_sha256_hex == b.cert_sha256_hex)

descriptor_iff : (a b : EndpointDescriptor) → (descriptor_beq a b ≡ true) ↔ (a ≡ b)
descriptor_iff a b = ground (
  arith,
  eq_iff a.id b.id,
  eq_iff a.transport b.transport,
  eq_iff a.address b.address,
  eq_iff a.provider_tag b.provider_tag,
  list_beq_iff a.capabilities b.capabilities,
  eq_iff a.cert_sha256_hex b.cert_sha256_hex,
)

instance abbrev descriptor_Eq : Eq EndpointDescriptor
descriptor_Eq = record { beq = descriptor_beq; beq_iff = descriptor_iff }

abbrev payload_beq : RelayBundlePayload → RelayBundlePayload → Bool
payload_beq a b =
    nat_eq a.schema_version b.schema_version
    && nat_eq a.issued_at b.issued_at
    && nat_eq a.expires_at b.expires_at
    && (a.nonce == b.nonce)
    && list_beq a.endpoints b.endpoints

payload_iff : (a b : RelayBundlePayload) → (payload_beq a b ≡ true) ↔ (a ≡ b)
payload_iff a b = ground (
  arith,
  nat_Eq.beq_iff a.schema_version b.schema_version,
  nat_Eq.beq_iff a.issued_at b.issued_at,
  nat_Eq.beq_iff a.expires_at b.expires_at,
  eq_iff a.nonce b.nonce,
  list_beq_iff a.endpoints b.endpoints,
)

instance abbrev payload_Eq : Eq RelayBundlePayload
payload_Eq = record { beq = payload_beq; beq_iff = payload_iff }

-- A codec for one payload.
abbrev pub payload_codec : RelayBundlePayload → PayloadJson
payload_codec p = record { to_vec = to_one p; from_slice = from_one p }

pub payload_codec-laws : (p : RelayBundlePayload) → PayloadJsonLaws (payload_codec p)
payload_codec-laws p = record { from_slice-to_vec = from_one-to_one p }

abbrev cert_beq : KeyCertificate → KeyCertificate → Bool
cert_beq a b =
    list_beq a.child_key b.child_key
    && nat_eq a.issued_at b.issued_at
    && list_beq a.signature b.signature

cert_iff : (a b : KeyCertificate) → (cert_beq a b ≡ true) ↔ (a ≡ b)
cert_iff a b = ground (
  arith,
  list_beq_iff a.child_key b.child_key,
  nat_Eq.beq_iff a.issued_at b.issued_at,
  list_beq_iff a.signature b.signature,
)

instance abbrev cert_Eq : Eq KeyCertificate
cert_Eq = record { beq = cert_beq; beq_iff = cert_iff }

abbrev bundle_beq : SignedBundle → SignedBundle → Bool
bundle_beq a b =
    list_beq a.payload_bytes b.payload_bytes
    && list_beq a.bundle_signature b.bundle_signature
    && list_beq a.bundle_signing_key b.bundle_signing_key
    && (a.bundle_key_cert == b.bundle_key_cert)
    && (a.release_key_cert == b.release_key_cert)

bundle_iff : (a b : SignedBundle) → (bundle_beq a b ≡ true) ↔ (a ≡ b)
bundle_iff a b = ground (
  arith,
  list_beq_iff a.payload_bytes b.payload_bytes,
  list_beq_iff a.bundle_signature b.bundle_signature,
  list_beq_iff a.bundle_signing_key b.bundle_signing_key,
  cert_Eq.beq_iff a.bundle_key_cert b.bundle_key_cert,
  cert_Eq.beq_iff a.release_key_cert b.release_key_cert,
)

instance abbrev bundle_Eq : Eq SignedBundle
bundle_Eq = record { beq = bundle_beq; beq_iff = bundle_iff }

abbrev pub bundle_codec : SignedBundle → BundleJson
bundle_codec b = record { to_vec = to_one b; from_slice = from_one b }

pub bundle_codec-laws : (b : SignedBundle) → BundleJsonLaws (bundle_codec b)
bundle_codec-laws b = record { from_slice-to_vec = from_one-to_one b }
