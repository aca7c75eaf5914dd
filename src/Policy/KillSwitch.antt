-- ===== src/Policy/KillSwitch.antt =====
-- crates/policy/src/killswitch.rs: the kill switch over any backend, and the mock backend.
pub mod Signals
use vpn.Prelude.{◌≡◌, List, [], ◌∷◌, ◌++◌}

pub data RoutePolicy : Type 0 where
  secure_route_active secure_route_unavailable : RoutePolicy

-- The trait `KillSwitchBackend`.
pub record KillSwitchBackend (B : Type 0) : Type 0 where
  pub apply : B → RoutePolicy → B
  pub current_policy : B → RoutePolicy

-- What the switch relies on: a backend reports the policy that was applied last.
pub record BackendLaws {B : Type 0} (k : KillSwitchBackend B) : Type 0 where
  pub current-apply : (b : B) (p : RoutePolicy) → k.current_policy (k.apply b p) ≡ p

pub record MockBackend : Type 0 where
  pub policy : RoutePolicy
  pub apply_log : List RoutePolicy

abbrev pub new_mock : MockBackend
new_mock = record { policy = secure_route_unavailable; apply_log = [] }

abbrev pub mock_apply : MockBackend → RoutePolicy → MockBackend
mock_apply b p = record { policy = p; apply_log = b.apply_log ++ p ∷ [] }

abbrev pub mock : KillSwitchBackend MockBackend
mock = record { apply = mock_apply; current_policy = λ b. b.policy }

module _ {B : Type 0} (k : KillSwitchBackend B) where
  pub record KillSwitch : Type 0 where
    pub backend : B

  abbrev pub new : B → KillSwitch
  new b = record { backend = b }

  unfoldable pub on_secure_route_established : KillSwitch → KillSwitch
  on_secure_route_established s = record s { backend = k.apply s.backend secure_route_active }

  unfoldable pub on_secure_route_lost : KillSwitch → KillSwitch
  on_secure_route_lost s = record s { backend = k.apply s.backend secure_route_unavailable }

  unfoldable pub policy : KillSwitch → RoutePolicy
  policy s = k.current_policy s.backend
