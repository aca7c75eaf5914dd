-- ===== src/Socks/Reply.antt =====
-- What a SOCKS client is told (apps/client-daemon/src/socks.rs).
use vpn.Prelude.{ℕ, ◌≡◌, ◌≢◌, ◌↔◌, inl, inr, Bool, List, ◌++◌, ok, arith, Bool-cases, Result-cases}
use vpn.Common.Framing.RoundTrip.{IsBytes}
use vpn.Socks.Host.{read_request-IsHost}
use vpn.Socks.Tunnel.{read_greeting-IsBytes, write-IsHost}
use vpn.Socks.{
  SocksError, io, unsupported_version, only_connect, invalid_domain, unsupported_atyp,
  engine_failed, destination_refused, Tunnelled, reply, no_auth, read_greeting, read_request,
  refusal, open_tunnel, handle_client,
}

abbrev success : List ℕ
success = no_auth ++ reply 0

-- no refusal looks like a success
refused-success : (e : SocksError) → no_auth ++ refusal e ≢ success
unfolding refusal
refused-success (io _) q = ground arith
refused-success (unsupported_version _) q = ground arith
refused-success (only_connect _) q = ground arith
refused-success invalid_domain q = ground arith
refused-success (unsupported_atyp _) q = ground arith
refused-success engine_failed q = ground arith
refused-success (destination_refused _) q = ground arith

module _ (connects : List ℕ → ℕ → Bool) where
  -- A client is told that it has succeeded exactly if there is a tunnel for it.
  pub success_iff :
      (s : List ℕ)
      → IsBytes s
      → ((handle_client connects s).sent ≡ success)
        ↔ ((t : Tunnelled) × ((handle_client connects s).outcome ≡ ok t))
  unfolding handle_client open_tunnel
  success_iff s b = elim (Result-cases (read_greeting s)) [
    | inr (y, e) ↦ (λ q. absurd (ground arith), λ (t, q). absurd (ground arith))
    | inl (s1, e) ↦ elim (Result-cases (read_request s1)) [
      | inr (y, e') ↦
          (λ q. absurd (refused-success y (ground arith)), λ (t, q). absurd (ground arith))
      | inl (((host, port), left), e') ↦
          let (fits, _) =
            read_request-IsHost s1 host port left (read_greeting-IsBytes s s1 b e) e' in
          let (preface, sent) = write-IsHost host port fits in
          elim (Bool-cases (connects host port)) [
            | inr e'' ↦ (
              λ q. absurd (refused-success engine_failed (ground arith)),
              λ (t, q). absurd (ground arith),
            )
            | inl e'' ↦ (
              λ q. (
                record { host = host; port = port; preface = preface; left = left },
                ground arith,
              ),
              λ q. ground arith,
            )
          ]
    ]
  ]
