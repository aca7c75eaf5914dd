-- ===== src/RendezvousClient/Offline.antt =====
-- What the rendezvous client returns with and without its source, and what it leaves in its cache
-- (crates/rendezvous-client/src/lib.rs).
use vpn.Prelude.{
  ℕ, Bool, true, false, Result, ok, err, map_err, bind-ok, ok-injective, ap, ◌∙◌, ◌≡◌, ◌≢◌, sym,
  inl, inr, refl, arith, Result-cases, Option-cases,
}
use vpn.Crypto.Dalek.{Ed25519}
use vpn.Config.{SignedBundle, TrustRoot, verify_bundle}
use vpn.Config.Revocation.{RevocationList, contains}
use vpn.Config.Verified.{IsCurrent, IsAuthentic, verify_bundle_iff}
use vpn.Config.Wire.{RelayBundlePayload, PayloadJson}
use vpn.RendezvousClient.{
  RendezvousClientError, verify, io, BundleJson, BundleJsonLaws, Cache, check, Write, complete,
  unopened, part, write_bytes, write_cache, read_cache, online, offline, get_bundle,
}

map_err-ok {ℓ κ ι} :
    {E : Type ℓ} {F : Type κ} {A : Type ι} (f : E → F) (r : Result E A) {a : A}
    → map_err f r ≡ ok a
    → r ≡ ok a
map_err-ok f (ok a) h = cc
map_err-ok f (err e) h = cc

module _ (ed : Ed25519) (payload_json : PayloadJson) (json : BundleJson)
    (trust_root : TrustRoot) where
  -- Where the bundle of an answer came from: the source, or, if that failed, the cache.
  pub data FromSource
      : Result RendezvousClientError SignedBundle → Cache → SignedBundle → Type 0 where
    fetched : {cache : Cache} {b : SignedBundle} → FromSource (ok b) cache b
    cached :
        {e : RendezvousClientError} {cache : Cache} {b : SignedBundle}
        → read_cache json true cache ≡ ok b
        → FromSource (err e) cache b

  online-ok :
      (write : Write) (b : SignedBundle) (r : Result RendezvousClientError RelayBundlePayload)
      (cache : Cache) {p : RelayBundlePayload}
      → (online ed payload_json json trust_root write b r cache).0 ≡ ok p
      → r ≡ ok p
  unfolding online
  online-ok write b (err e) cache h = cc
  online-ok write b (ok q) cache h = ground arith

  readable_lem :
      (readable : Bool) (cache : Cache) {b : SignedBundle}
      → read_cache json readable cache ≡ ok b
      → read_cache json true cache ≡ ok b
  unfolding read_cache
  readable_lem readable cache h = ground arith

  -- An answer is a payload that the verification accepts now, under the current revocations: of the
  -- bundle that was fetched, or, if the fetch failed, of the one in the cache.
  pub get_bundle_verified :
      (source : Result RendezvousClientError SignedBundle) (revoked : RevocationList) (now : ℕ)
      (write : Write) (readable : Bool) (cache : Cache) (p : RelayBundlePayload)
      → (get_bundle ed payload_json json trust_root source revoked now write readable cache).0
        ≡ ok p
      → (b : SignedBundle) × FromSource source cache b
        × (verify_bundle ed payload_json b trust_root revoked now ≡ ok p)
  unfolding get_bundle offline check
  get_bundle_verified (ok b) revoked now write readable cache p h =
      let checked = check ed payload_json json trust_root b revoked now in
      (b, fetched, map_err-ok verify _ (online-ok write b checked cache h))
  get_bundle_verified (err e) revoked now write readable cache p h =
      let (b, from, checked) = bind-ok (read_cache json readable cache) _ h in
      (b, cached (readable_lem readable cache from), map_err-ok verify _ checked)

module _ (ed : Ed25519) (payload_json : PayloadJson) (json : BundleJson)
    (json_laws : BundleJsonLaws json) (trust_root : TrustRoot) where
  write_cache-read :
      (write : Write) (b : SignedBundle) (cache : Cache)
      → (write_cache json write b cache).0 ≡ ok tt
      → read_cache json true (write_cache json write b cache).1 ≡ ok b
  unfolding write_cache read_cache write_bytes
  write_cache-read complete b cache h = elim (Option-cases (json.to_vec b)) [
    | inl e ↦ ground arith
    | inr (bytes, e) ↦ ground (arith, json_laws.from_slice-to_vec b bytes e)
  ]
  write_cache-read unopened b cache h = absurd (ground arith)
  write_cache-read (part left) b cache h = absurd (ground arith)

  write_cache_failed :
      (write : Write) (b : SignedBundle) (cache : Cache) {e : RendezvousClientError}
      → (write_cache json write b cache).0 ≡ err e
      → e ≢ io
      → (write_cache json write b cache).1 ≡ cache
  unfolding write_cache write_bytes
  write_cache_failed complete b cache h other = ground arith
  write_cache_failed unopened b cache h other = ground arith
  write_cache_failed (part left) b cache h other = ground arith

  online-cached :
      (write : Write) (b : SignedBundle) (r : Result RendezvousClientError RelayBundlePayload)
      (cache : Cache) {p : RelayBundlePayload}
      → (online ed payload_json json trust_root write b r cache).0 ≡ ok p
      → read_cache json true (online ed payload_json json trust_root write b r cache).1 ≡ ok b
  unfolding online
  online-cached write b (err e) cache h = cc
  online-cached write b (ok q) cache h = elim (Result-cases (write_cache json write b cache).0) [
    | inl (tt, e) ↦ write_cache-read write b cache e
    | inr (_, e) ↦ ground arith
  ]

  online-failed :
      (write : Write) (b : SignedBundle) (r : Result RendezvousClientError RelayBundlePayload)
      (cache : Cache) {e : RendezvousClientError}
      → (online ed payload_json json trust_root write b r cache).0 ≡ err e
      → e ≢ io
      → (online ed payload_json json trust_root write b r cache).1 ≡ cache
  unfolding online
  online-failed write b (err e) cache h other = refl
  online-failed write b (ok q) cache h other =
      elim (Result-cases (write_cache json write b cache).0) [
        | inl (tt, e) ↦ ground arith
        | inr (y, e) ↦
            let same : y ≡ _ = ground arith in
            write_cache_failed write b cache e (λ q. other (sym same ∙ q))
      ]

  -- A call that fails otherwise than on the disk leaves the cache as it was, and so does any call
  -- whose source fails; a call that answers from the source leaves the fetched bundle in the cache.
  pub get_bundle_cache :
      (source : Result RendezvousClientError SignedBundle) (revoked : RevocationList) (now : ℕ)
      (write : Write) (readable : Bool) (cache : Cache)
      → let after =
          get_bundle ed payload_json json trust_root source revoked now write readable cache in
        ((e : RendezvousClientError) → after.0 ≡ err e → e ≢ io → after.1 ≡ cache)
        × ((b : SignedBundle) (p : RelayBundlePayload)
            → source ≡ ok b
            → after.0 ≡ ok p
            → read_cache json true after.1 ≡ ok b)
        × ((e : RendezvousClientError) → source ≡ err e → after.1 ≡ cache)
  unfolding get_bundle check
  get_bundle_cache (ok b) revoked now write readable cache =
      let checked = check ed payload_json json trust_root b revoked now in
      (
        λ e h other. online-failed write b checked cache h other,
        λ b' p same h. online-cached write b checked cache h ∙ ap ok (ok-injective same),
        λ e h. cc,
      )
  get_bundle_cache (err e) revoked now write readable cache =
      (λ e' h other. refl, λ b p h. cc, λ e' h. refl)

  -- After an answer from the source, a client whose source fails keeps giving that answer from its
  -- cache, if that can be read, under any revocations that spare the bundle's two keys, for as long as the payload is current.
  pub get_bundle_outage :
      (b : SignedBundle) (revoked revoked' : RevocationList) (now later : ℕ) (write write' : Write)
      (readable : Bool) (cache : Cache) (p : RelayBundlePayload) (e : RendezvousClientError)
      → (get_bundle ed payload_json json trust_root (ok b) revoked now write readable cache).0
        ≡ ok p
      → contains revoked' b.release_key_cert.child_key ≡ false
      → contains revoked' b.bundle_signing_key ≡ false
      → IsCurrent p later
      → let cache' =
          (get_bundle ed payload_json json trust_root (ok b) revoked now write readable cache).1 in
        (get_bundle ed payload_json json trust_root (err e) revoked' later write' true cache').0
        ≡ ok p
  unfolding get_bundle offline check
  get_bundle_outage b revoked revoked' now later write write' readable cache p e h live1 live2
        current =
      let checked = check ed payload_json json trust_root b revoked now in
      let verified =
        map_err-ok verify _ (online-ok ed payload_json json trust_root write b checked cache h) in
      let (authentic, parsed, _) =
        (verify_bundle_iff ed payload_json b trust_root revoked now p).0 verified in
      let authentic' : IsAuthentic ed b trust_root revoked' = record {
        release_chain = authentic.release_chain;
        bundle_chain = authentic.bundle_chain;
        key_matches = authentic.key_matches;
        release_live = live1;
        bundle_live = live2;
        signed = authentic.signed;
      } in
      rw (
        online-cached write b checked cache h,
        (verify_bundle_iff ed payload_json b trust_root revoked' later p).1
            (authentic', parsed, current),
      )
