-- ===== src/Examples/Connecting.antt =====
-- Theorems on the connection engine (apps/client-daemon/src/engine.rs) for one transport and one relay.
use vpn.Prelude.{
  ℕ, zero, suc, ◌≡◌, ◌≢◌, ◌≤◌, refl, String, List, [], ◌∷◌, length, some, ok, err, fixed_point,
  fixed_point-laws,
}
use vpn.Common.{TransportId}
use vpn.NetworkState.{is_remote_signal, local_network_failure, tcp_reset}
use vpn.Config.Wire.{EndpointDescriptor}
use vpn.FailureClassifier.{ShutdownGuard, should_suppress_switching}
use vpn.Policy.{Candidate}
use vpn.Policy.Random.{first_choice}
use vpn.Engine.{ConnectionEngine, Choice, candidates, with_max_attempts}
use vpn.Engine.Outside.{Network, Environment, Endpoint, TransportError, category}
use vpn.Engine.Outside
use vpn.Engine.Connect.{
  EngineError, possible_shutdown, all_attempts_failed, refused, connected, panicked, connect,
}
use vpn.Engine.Bounds.{connect_bounded}
use vpn.Engine.Invariant.{EngineIsValid, connect-EngineIsValid, with_max_attempts-EngineIsValid}
use vpn.Engine.Outcomes.{IsConnected, connect_connected}

-- a transport is its name, and every hash decodes to 32 bytes
abbrev bytes32 : List ℕ
bytes32 =
    0 ∷ 0 ∷ 0 ∷ 0 ∷ 0 ∷ 0 ∷ 0 ∷ 0 ∷ 0 ∷ 0 ∷ 0 ∷ 0 ∷ 0 ∷ 0 ∷ 0 ∷ 0 ∷ 0 ∷ 0 ∷ 0 ∷ 0 ∷ 0 ∷ 0 ∷ 0 ∷ 0
    ∷ 0 ∷ 0 ∷ 0 ∷ 0 ∷ 0 ∷ 0 ∷ 0 ∷ 0 ∷ []

abbrev net : Network
net = record {
  Address = String;
  parse_address = λ s. some s;
  decode_hex = λ s. some bytes32;
  Transport = TransportId;
  id = λ t. t;
  Session = ℕ;
}

-- every dial is reset
abbrev resetting : Environment net
resetting = record {
  select_time = λ n. n;
  failure_time = λ n. n;
  dial = λ n t ep. err (Outside.connect tcp_reset "reset");
}

-- every dial fails on the local network
abbrev offline : Environment net
offline = record {
  select_time = λ n. n;
  failure_time = λ n. n;
  dial = λ n t ep. err (Outside.connect local_network_failure "no route");
}

-- the second dial connects
abbrev second_time : Environment net
second_time = record {
  select_time = λ n. n;
  failure_time = λ n. n;
  dial = λ n t ep. elim n [ zero ↦ err (Outside.connect tcp_reset "reset") | suc m ↦ ok 42 ];
}

abbrev relay : EndpointDescriptor
relay = record {
  id = "relay-1";
  transport = "direct-tls";
  address = "127.0.0.1:9443";
  provider_tag = "dev";
  capabilities = [];
  cert_sha256_hex = "00";
}

abbrev engine : ConnectionEngine fixed_point net
engine = with_max_attempts fixed_point net ("direct-tls" ∷ []) (relay ∷ []) 4

abbrev choice : Choice net
choice = record {
  candidate = record { transport = "direct-tls"; endpoint = "relay-1" };
  resolved = record {
    descriptor = relay;
    endpoint = record {
      id = "relay-1";
      address = "127.0.0.1:9443";
      provider_tag = "dev";
      pinned_cert_sha256 = bytes32;
    };
  };
  transport = "direct-tls";
}

offered : candidates fixed_point net engine ≡ choice ∷ []
unfolding candidates with_max_attempts vpn.Engine.choice_of
offered = refl

connect_bounded_example :
    let c = connect fixed_point first_choice net resetting engine tt in
    (length c.dialled ≤ engine.max_attempts)
    × (c.answer ≢ panicked)
    × ((x : TransportError)
        → c.answer ≡ refused (all_attempts_failed x)
        → length c.dialled ≡ engine.max_attempts)
connect_bounded_example = connect_bounded fixed_point first_choice net resetting engine tt

connect-EngineIsValid_example :
    EngineIsValid fixed_point (connect fixed_point first_choice net resetting engine tt).engine
connect-EngineIsValid_example =
    connect-EngineIsValid fixed_point fixed_point-laws first_choice net resetting engine tt (
      with_max_attempts-EngineIsValid fixed_point fixed_point-laws first_choice net resetting
        ("direct-tls" ∷ []) (relay ∷ []) 4)

connects :
    (connect fixed_point first_choice net second_time engine tt).answer ≡ connected "direct-tls" 42
unfolding connect candidates with_max_attempts vpn.Engine.choice_of vpn.Engine.Connect.attempt
    should_suppress_switching vpn.FailureClassifier.new vpn.Policy.select_next
    vpn.Policy.select_from vpn.Policy.eligible vpn.Policy.is_quarantined vpn.Policy.score_of
    vpn.Policy.neutral vpn.Engine.Connect.find_choice vpn.FailureClassifier.record_outcome
    is_remote_signal category vpn.Policy.observe_failure vpn.Policy.record_failure
connects = refl

connect_connected_example :
    IsConnected fixed_point first_choice net second_time engine tt
      (candidates fixed_point net engine)
      "direct-tls"
      42
      (connect fixed_point first_choice net second_time engine tt).engine
connect_connected_example =
    connect_connected fixed_point first_choice net second_time engine tt "direct-tls" 42 connects
