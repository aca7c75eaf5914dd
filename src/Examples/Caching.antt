-- ===== src/Examples/Caching.antt =====
-- Theorems on the rendezvous client (crates/rendezvous-client/src/lib.rs) for a concrete bundle.
use vpn.Prelude.{◌≡◌, refl, true, false, [], ◌∷◌, none, ok, err, arith}
use vpn.Config.{SignedBundle, verify_bundle}
use vpn.Config.Revocation.{RevocationList, empty, from_keys, contains}
use vpn.RendezvousClient.{RendezvousClientError, fetch, io, complete, Cache, get_bundle, read_cache}
use vpn.RendezvousClient.Offline.{FromSource, get_bundle_verified, get_bundle_outage}
use vpn.Examples.Codecs.{toy, payload_codec, bundle_codec, bundle_codec-laws}
use vpn.Examples.Bundles.{payload, signed, trusted, accepted, payload-IsCurrent}

abbrev no_cache : Cache
no_cache = none

answered :
    (get_bundle toy
      (payload_codec payload)
      (bundle_codec signed)
      trusted
      (ok signed)
      empty
      200
      complete
      true
      no_cache).0
    ≡ ok payload
unfolding get_bundle vpn.RendezvousClient.online vpn.RendezvousClient.check vpn.Crypto.issue
    vpn.Crypto.public_key vpn.Crypto.sign vpn.Crypto.signing_bytes
answered = rw (accepted 200 (omega arith) (omega arith)) refl

get_bundle_verified_example :
    (b : SignedBundle) × FromSource toy
      (payload_codec payload)
      (bundle_codec signed)
      trusted
      (ok signed)
      no_cache
      b
    × (verify_bundle toy (payload_codec payload) b trusted empty 200 ≡ ok payload)
get_bundle_verified_example =
    get_bundle_verified toy (payload_codec payload) (bundle_codec signed) trusted (ok signed) empty
      200 complete true no_cache payload answered

-- another key is revoked in the meantime
abbrev later_list : RevocationList
later_list = from_keys ((9 ∷ []) ∷ [])

spared : (contains later_list (2 ∷ []) ≡ false) × (contains later_list (3 ∷ []) ≡ false)
unfolding contains
spared = (refl, refl)

get_bundle_outage_example :
    let cache' =
      (get_bundle toy
        (payload_codec payload)
        (bundle_codec signed)
        trusted
        (ok signed)
        empty
        200
        complete
        true
        no_cache).1 in
    (get_bundle toy
      (payload_codec payload)
      (bundle_codec signed)
      trusted
      (err fetch)
      later_list
      900
      complete
      true
      cache').0
    ≡ ok payload
unfolding vpn.Crypto.public_key vpn.Crypto.issue
get_bundle_outage_example =
    get_bundle_outage toy (payload_codec payload) (bundle_codec signed) (bundle_codec-laws signed)
      trusted signed empty later_list 200 900 complete complete true no_cache payload fetch answered
      spared.0 spared.1 (payload-IsCurrent 900 (omega arith) (omega arith))
