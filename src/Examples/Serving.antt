-- ===== src/Examples/Serving.antt =====
-- Theorems on the rendezvous service (services/rendezvous/src/lib.rs) for a pool of one relay.
use vpn.Prelude.{
  ℕ, ◌≡◌, refl, false, ltb, min, List, [], ◌∷◌, length, take, length-take, none, ok, whole,
  whole-laws, nat_Eq, arith,
}
use vpn.Config.{SignedBundle, verify_bundle}
use vpn.Config.Revocation.{empty, contains}
use vpn.Config.Verified.{release_cert, bundle_cert}
use vpn.Config.Wire.{RelayBundlePayload}
use vpn.Rendezvous.{RelayPoolEntry, AppState, bundle, get_relay_bundle}
use vpn.Rendezvous.RateLimiter.{Limiter, allow}
use vpn.Rendezvous.RateLimiter
use vpn.Rendezvous.RateLimiter.Laws.{burst, burst_allowed, IsCapped}
use vpn.Rendezvous.Served.{ChooseLaws, IsProvisioned, served_verifies}
use vpn.Examples.Codecs.{toy, toy-laws, payload_codec, payload_codec-laws}
use vpn.Examples.Bundles.{root, release, bundle_key, payload, signed, trusted}

abbrev limiter : Limiter whole ℕ
limiter = RateLimiter.new whole ℕ 2 1

burst_allowed_example : (allow whole ℕ (burst whole whole-laws ℕ 2 limiter 1 0) 1 0).0 ≡ ltb 2 2
burst_allowed_example = burst_allowed whole whole-laws ℕ 2 2 limiter 1 0 refl (omega arith) refl

capped : IsCapped whole whole-laws ℕ limiter
capped ip b h = cc

abbrev pool : List RelayPoolEntry
pool =
    record {
      id = "relay-1";
      transport = "direct-tls";
      address = "127.0.0.1:9443";
      provider_tag = "dev";
      capabilities = "STREAM" ∷ [];
      cert_sha256_hex = "00";
    }
    ∷ []

abbrev state : AppState whole ℕ
state = record {
  bundle_key = bundle_key;
  bundle_key_cert = bundle_cert toy toy-laws root release bundle_key 1 2;
  release_key_cert = release_cert toy toy-laws root release bundle_key 1 2;
  pool = pool;
  subset_size = 3;
  ttl_secs = 900;
  rate_limiter = limiter;
  revocation_list_bytes = none;
}

provisioned :
    IsProvisioned whole ℕ toy toy-laws
      (payload_codec payload)
      (payload_codec-laws payload)
      root
      release
      bundle_key
      1
      2
      state
provisioned = record { key = refl; bundle_cert_held = refl; release_cert_held = refl }

-- the first relays of the pool
abbrev choose : ℕ → List RelayPoolEntry → List RelayPoolEntry
choose n xs = take n xs

choose-laws : ChooseLaws choose
choose-laws = record { length_choose = λ n xs h. omega (arith, length-take n xs) }

handed_out :
    (get_relay_bundle whole ℕ toy (payload_codec payload) state 1 0 choose "nonce" 100).0
    ≡ bundle signed
unfolding get_relay_bundle allow vpn.Config.sign_bundle vpn.Common.saturating_add_secs
    vpn.Crypto.sign vpn.Crypto.public_key
handed_out = refl

live : (contains empty (2 ∷ []) ≡ false) × (contains empty (3 ∷ []) ≡ false)
unfolding contains
live = (refl, refl)

served_verifies_example :
    (p : RelayBundlePayload) × (verify_bundle toy (payload_codec payload) signed trusted empty 500
      ≡ ok p)
    × (length p.endpoints ≡ min 3 1)
unfolding vpn.Crypto.public_key vpn.Common.saturating_add_secs
served_verifies_example =
    served_verifies whole ℕ toy toy-laws (payload_codec payload) (payload_codec-laws payload) root
      release bundle_key 1 2 state 1 0 choose "nonce" 100 500 empty signed provisioned choose-laws
      handed_out live.0 live.1 (omega arith) (omega arith)
