-- ===== src/Engine/Candidates.antt =====
-- Which choices the engine offers, and that what is chosen of them is found again
-- (apps/client-daemon/src/engine.rs).
use mathlib.Core.List.{Memᴰ}
use mathlib.Core.List.Memᴰ.{not-nil}
use vpn.Prelude.{
  ◌≡◌, ◌≢◌, inl, inr, sym, ap, ◌∙◌, List, [], ◌∷◌, map, length, some, arith, Bool-cases,
}
use vpn.Config.Wire.{EndpointDescriptor}
use vpn.Policy.{Candidate, candidate_Eq, candidate_beq, candidate_iff}
use vpn.Engine.{known_transport_id_str, parse_endpoint, Choice}
use vpn.Engine.Outside.{Network, Endpoint}
use vpn.Engine.Connect.{find_choice}

find_cons :
    {net : Network} (chosen : Candidate) (c : Choice net) (cs : List (Choice net))
    → (chosen ≢ c.candidate
        → (d : Choice net) × (find_choice chosen cs ≡ some d) × (d.candidate ≡ chosen))
    → (d : Choice net) × (find_choice chosen (c ∷ cs) ≡ some d) × (d.candidate ≡ chosen)
unfolding find_choice
find_cons chosen c cs h = elim (Bool-cases (candidate_beq c.candidate chosen)) [
  | inl e ↦ (c, rw e, (candidate_iff c.candidate chosen).0 e)
  | inr e ↦
      let (d, found, same) = h (λ q. ground (arith, candidate_iff c.candidate chosen)) in
      (d, rw e found, same)
]

-- What is drawn from the candidates is found among the choices.
pub find_choice-mem :
    {net : Network} (chosen : Candidate) (cs : List (Choice net))
    → Memᴰ chosen (map (λ c. c.candidate) cs)
    → (d : Choice net) × (find_choice chosen cs ≡ some d) × (d.candidate ≡ chosen)
find_choice-mem chosen [] m = absurd (not-nil m)
find_choice-mem chosen (c ∷ cs) (Memᴰ.head q) = find_cons chosen c cs (λ h. absurd (h q))
find_choice-mem chosen (c ∷ cs) (Memᴰ.tail m) =
    find_cons chosen c cs (λ h. find_choice-mem chosen cs m)

-- What is found is one of the choices.
pub find_choice-found :
    {net : Network} (chosen : Candidate) (cs : List (Choice net)) {d : Choice net}
    → find_choice chosen cs ≡ some d
    → Memᴰ d cs × (d.candidate ≡ chosen)
unfolding find_choice
find_choice-found chosen [] h = cc
find_choice-found chosen (c ∷ cs) h = elim (Bool-cases (candidate_beq c.candidate chosen)) [
  | inl e ↦
      let same : c ≡ _ = ground arith in
      (
        Memᴰ.head (sym same),
        ap (λ x. x.candidate) (sym same) ∙ (candidate_iff c.candidate chosen).0 e,
      )
  | inr e ↦
      let (inside, same) = find_choice-found chosen cs (ground arith) in (Memᴰ.tail inside, same)
]

module _ (net : Network) where
  -- What makes a choice sound for the descriptors and transports that an engine was made from.
  pub record IsSound (ts : List net.Transport) (ds : List EndpointDescriptor) (c : Choice net)
      : Type 0 where
    pub descriptor_given : Memᴰ c.resolved.descriptor ds
    pub transport_given : Memᴰ c.transport ts
    pub transport_named :
        net.id c.transport ≡ known_transport_id_str c.resolved.descriptor.transport
    pub candidate_transport : c.candidate.transport ≡ net.id c.transport
    pub candidate_endpoint : c.candidate.endpoint ≡ c.resolved.descriptor.id
    pub parsed : parse_endpoint net c.resolved.descriptor ≡ some c.resolved.endpoint

  pub parse_endpoint-pinned :
      (d : EndpointDescriptor) {e : Endpoint net}
      → parse_endpoint net d ≡ some e
      → (length e.pinned_cert_sha256 ≡ 32)
        × (net.decode_hex d.cert_sha256_hex ≡ some e.pinned_cert_sha256)
        × (net.parse_address d.address ≡ some e.address)
        × (e.id ≡ d.id)
  unfolding parse_endpoint
  parse_endpoint-pinned d h = (ground arith, ground arith, ground arith, ground arith)
