-- ===== src/Policy/KillSwitch/Signals.antt =====
-- The kill switch under a sequence of signals (crates/policy/src/killswitch.rs).
use vpn.Prelude.{◌≡◌, refl, ap, sym, ◌∙◌, List, [], ◌∷◌, ◌++◌, append_assoc, map}
use mathlib.Core.List.{append-nil}
use vpn.Policy.KillSwitch.{
  RoutePolicy, secure_route_active, secure_route_unavailable, KillSwitchBackend, BackendLaws,
  new_mock, mock, KillSwitch, new, on_secure_route_established, on_secure_route_lost, policy,
}

pub data Signal : Type 0 where
  established lost : Signal

-- The policy that a signal calls for.
abbrev pub called_for : Signal → RoutePolicy
called_for established = secure_route_active
called_for lost = secure_route_unavailable

-- The policy after a list of signals: that of the last one.
abbrev pub last_called_for : RoutePolicy → List Signal → RoutePolicy
last_called_for p [] = p
last_called_for p (g ∷ gs) = last_called_for (called_for g) gs

module _ {B : Type 0} (k : KillSwitchBackend B) where
  unfoldable pub on_signal : KillSwitch k → Signal → KillSwitch k
  unfolding on_secure_route_established on_secure_route_lost
  on_signal s established = on_secure_route_established k s
  on_signal s lost = on_secure_route_lost k s

  unfoldable pub on_signals : KillSwitch k → List Signal → KillSwitch k
  unfolding on_signal
  on_signals s [] = s
  on_signals s (g ∷ gs) = on_signals (on_signal s g) gs

module _ {B : Type 0} (k : KillSwitchBackend B) (laws : BackendLaws k) where
  policy-on_signal : (s : KillSwitch k) (g : Signal) → policy k (on_signal k s g) ≡ called_for g
  unfolding policy on_signal
  policy-on_signal s established = laws.current-apply s.backend secure_route_active
  policy-on_signal s lost = laws.current-apply s.backend secure_route_unavailable

  -- Over any backend that reports what was applied last, protected traffic is allowed after a list
  -- of signals exactly as the last of them says, and as before if there was none.
  pub policy-on_signals :
      (s : KillSwitch k) (gs : List Signal)
      → policy k (on_signals k s gs) ≡ last_called_for (policy k s) gs
  unfolding on_signals
  policy-on_signals s [] = refl
  policy-on_signals s (g ∷ gs) =
      policy-on_signals (on_signal k s g) gs ∙ ap (λ p. last_called_for p gs) (policy-on_signal s g)

pub mock-laws : BackendLaws mock
mock-laws = record { current-apply = λ b p. refl }

mock-log :
    (s : KillSwitch mock) (gs : List Signal)
    → (on_signals mock s gs).backend.apply_log ≡ s.backend.apply_log ++ map called_for gs
unfolding on_signals
mock-log s [] = sym (append-nil s.backend.apply_log)
mock-log s (established ∷ gs) =
    mock-log (on_signal mock s established) gs
    ∙ append_assoc s.backend.apply_log (secure_route_active ∷ []) (map called_for gs)
mock-log s (lost ∷ gs) =
    mock-log (on_signal mock s lost) gs
    ∙ append_assoc s.backend.apply_log (secure_route_unavailable ∷ []) (map called_for gs)

-- A switch on a new mock backend blocks before any signal, and its backend logs every transition, in
-- order.
pub mock_records :
    (gs : List Signal)
    → (policy mock (new mock new_mock) ≡ secure_route_unavailable)
      × ((on_signals mock (new mock new_mock) gs).backend.apply_log ≡ map called_for gs)
unfolding policy
mock_records gs = (refl, mock-log (new mock new_mock) gs)
