-- ===== src/Examples/Bundles.antt =====
-- Theorems on keys and bundles (crates/crypto, crates/config) for a concrete chain of keys.
use vpn.Prelude.{
  ℕ, String, ◌≡◌, ◌↔◌, ◌≤◌, ◌<◌, refl, false, List, [], ◌∷◌, some, ok, nat_Eq, string_Eq, arith,
}
use vpn.Crypto.{KeyPair, public_key, sign}
use vpn.Crypto.KeyFile.{Files}
use vpn.Config.{SignedBundle, TrustRoot, sign_bundle, verify_bundle}
use vpn.Config.Wire.{RelayBundlePayload, EndpointDescriptor}
use vpn.Config.Revocation.{empty, contains}
use vpn.Config.Verified.{
  IsAuthentic, IsCurrent, release_cert, bundle_cert, pinned, verify_bundle_iff,
  verify_bundle-sign_bundle,
}
use vpn.Config.SignedList.Laws.{list_bytes-injective}
use vpn.Examples.Codecs.{toy, toy-laws, payload_codec, payload_codec-laws}

abbrev pub root : KeyPair
root = record { signing_key = 1 ∷ [] }

abbrev pub release : KeyPair
release = record { signing_key = 2 ∷ [] }

abbrev pub bundle_key : KeyPair
bundle_key = record { signing_key = 3 ∷ [] }

abbrev pub relay : EndpointDescriptor
relay = record {
  id = "relay-1";
  transport = "direct-tls";
  address = "127.0.0.1:9443";
  provider_tag = "dev";
  capabilities = "STREAM" ∷ [];
  cert_sha256_hex = "00";
}

-- a payload that is valid from 100 until 1000
abbrev pub payload : RelayBundlePayload
payload = record {
  schema_version = 1;
  issued_at = 100;
  expires_at = 1000;
  nonce = "nonce";
  endpoints = relay ∷ [];
}

abbrev pub trusted : TrustRoot
trusted = pinned toy toy-laws root release bundle_key 1 2

abbrev pub signed : SignedBundle
signed = record {
  payload_bytes = 7 ∷ [];
  bundle_signature = 3 ∷ 7 ∷ [];
  bundle_signing_key = 3 ∷ [];
  bundle_key_cert = bundle_cert toy toy-laws root release bundle_key 1 2;
  release_key_cert = release_cert toy toy-laws root release bundle_key 1 2;
}

signed_signed :
    sign_bundle toy
      (payload_codec payload)
      payload
      bundle_key
      (bundle_cert toy toy-laws root release bundle_key 1 2)
      (release_cert toy toy-laws root release bundle_key 1 2)
    ≡ ok signed
unfolding sign_bundle sign public_key
signed_signed = refl

live_keys : (contains empty (2 ∷ []) ≡ false) × (contains empty (3 ∷ []) ≡ false)
unfolding contains
live_keys = (refl, refl)

pub payload-IsCurrent : (now : ℕ) → 100 ≤ now → now < 1000 → IsCurrent payload now
unfolding vpn.Config.is_supported
payload-IsCurrent now h k = record { schema = refl; started = h; unexpired = k }

pub accepted :
    (now : ℕ)
    → 100 ≤ now
    → now < 1000
    → verify_bundle toy (payload_codec payload) signed trusted empty now ≡ ok payload
unfolding public_key
accepted now h k =
    verify_bundle-sign_bundle toy toy-laws root release bundle_key 1 2 (payload_codec payload)
      (payload_codec-laws payload) payload empty now signed signed_signed live_keys.0 live_keys.1
      (payload-IsCurrent now h k)

verify_bundle_iff_example :
    (verify_bundle toy (payload_codec payload) signed trusted empty 500 ≡ ok payload) ↔ (
      IsAuthentic toy signed trusted empty
      × ((payload_codec payload).from_slice (7 ∷ []) ≡ some payload)
      × IsCurrent payload 500)
verify_bundle_iff_example =
    verify_bundle_iff toy (payload_codec payload) signed trusted empty 500 payload

-- a key of 32 bytes
abbrev revoked_key : List ℕ
revoked_key =
    1 ∷ 2 ∷ 3 ∷ 4 ∷ 5 ∷ 6 ∷ 7 ∷ 8 ∷ 9 ∷ 10 ∷ 11 ∷ 12 ∷ 13 ∷ 14 ∷ 15 ∷ 16 ∷ 17 ∷ 18 ∷ 19 ∷ 20 ∷ 21
    ∷ 22 ∷ 23 ∷ 24 ∷ 25 ∷ 26 ∷ 27 ∷ 28 ∷ 29 ∷ 30 ∷ 31 ∷ 32 ∷ []

list_bytes-injective_example : (revoked_key ∷ [] ≡ revoked_key ∷ []) × (◌≡◌ {A = ℕ} 500 500)
list_bytes-injective_example =
    list_bytes-injective (revoked_key ∷ []) (revoked_key ∷ []) 500 500 (refl, tt) (refl, tt)
      (omega arith) (omega arith) refl

abbrev five : ℕ
five = 5

abbrev no_files : Files
no_files = []

abbrev path : String
path = "bundle.key"

-- a key of 32 bytes
abbrev key32 : List ℕ
key32 =
    1 ∷ 2 ∷ 3 ∷ 4 ∷ 5 ∷ 6 ∷ 7 ∷ 8 ∷ 1 ∷ 2 ∷ 3 ∷ 4 ∷ 5 ∷ 6 ∷ 7 ∷ 8 ∷ 1 ∷ 2 ∷ 3 ∷ 4 ∷ 5 ∷ 6 ∷ 7 ∷ 8
    ∷ 1 ∷ 2 ∷ 3 ∷ 4 ∷ 5 ∷ 6 ∷ 7 ∷ 8 ∷ []
