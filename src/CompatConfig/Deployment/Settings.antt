-- ===== src/CompatConfig/Deployment/Settings.antt =====
-- Two configurations that differ in no setting but the version (crates/compat-config/src/deployment.rs).
use vpn.Prelude.{
  ℕ, ◌≡◌, refl, string_Eq, nat_Eq, nat_eq, nat_eq_iff, Bool, true, list_beq_iff, Option, none, some,
  ap, arith,
}
use vpn.CompatConfig.Deployment.{
  RealitySection, Hysteria2Section, SubscriptionSection, UdpProbeSection, DeploymentConfig,
  same_option, same_reality, same_hysteria2, same_subscription, same_probe, same_settings,
}

same_option-equal {ℓ} :
    {A : Type ℓ} (same : A → A → Bool)
    → ((a b : A) → same a b ≡ true → a ≡ b)
    → (x y : Option A) → same_option same x y ≡ true
    → x ≡ y
unfolding same_option
same_option-equal same equal none none h = refl
same_option-equal same equal none (some b) h = absurd (cc h)
same_option-equal same equal (some a) none h = absurd (cc h)
same_option-equal same equal (some a) (some b) h = ap some (equal a b h)

same_number : (a b : Option ℕ) → same_option nat_eq a b ≡ true → a ≡ b
same_number = same_option-equal nat_eq (λ a b. (nat_eq_iff a b).0)

same_reality-equal : (a b : RealitySection) → same_reality a b ≡ true → a ≡ b
unfolding same_reality
same_reality-equal a b h =
    let port : a.listen_port ≡ b.listen_port =
      ground (arith, nat_eq_iff a.listen_port b.listen_port) in
    let server : a.handshake_server ≡ b.handshake_server =
      ground (arith, string_Eq.beq_iff a.handshake_server b.handshake_server) in
    let handshake : a.handshake_port ≡ b.handshake_port =
      ground (arith, nat_eq_iff a.handshake_port b.handshake_port) in
    λ i. record { listen_port = port i; handshake_server = server i; handshake_port = handshake i }

same_hysteria2-equal : (a b : Hysteria2Section) → same_hysteria2 a b ≡ true → a ≡ b
unfolding same_hysteria2
same_hysteria2-equal a b h =
    let port : a.listen_port ≡ b.listen_port =
      ground (arith, nat_eq_iff a.listen_port b.listen_port) in
    let up : a.up_mbps ≡ b.up_mbps = same_number a.up_mbps b.up_mbps (ground arith) in
    let down : a.down_mbps ≡ b.down_mbps = same_number a.down_mbps b.down_mbps (ground arith) in
    λ i. record { listen_port = port i; up_mbps = up i; down_mbps = down i }

same_subscription-equal : (a b : SubscriptionSection) → same_subscription a b ≡ true → a ≡ b
unfolding same_subscription
same_subscription-equal a b h =
    let port : a.listen_port ≡ b.listen_port =
      ground (arith, nat_eq_iff a.listen_port b.listen_port) in
    let public : a.public_port ≡ b.public_port =
      ground (arith, nat_eq_iff a.public_port b.public_port) in
    λ i. record { listen_port = port i; public_port = public i }

same_probe-equal : (a b : UdpProbeSection) → same_probe a b ≡ true → a ≡ b
unfolding same_probe
same_probe-equal a b h =
    let v4 : a.ipv4_resolvers ≡ b.ipv4_resolvers =
      ground (arith, list_beq_iff a.ipv4_resolvers b.ipv4_resolvers) in
    let v6 : a.ipv6_resolvers ≡ b.ipv6_resolvers =
      ground (arith, list_beq_iff a.ipv6_resolvers b.ipv6_resolvers) in
    let retries : a.retries ≡ b.retries = ground (arith, nat_eq_iff a.retries b.retries) in
    let timeout : a.timeout_ms ≡ b.timeout_ms =
      ground (arith, nat_eq_iff a.timeout_ms b.timeout_ms) in
    let delay : a.delay_ms ≡ b.delay_ms = ground (arith, nat_eq_iff a.delay_ms b.delay_ms) in
    λ i. record {
      ipv4_resolvers = v4 i;
      ipv6_resolvers = v6 i;
      retries = retries i;
      timeout_ms = timeout i;
      delay_ms = delay i;
    }

pub same_settings-equal :
    (a b : DeploymentConfig)
    → same_settings a b ≡ true
    → b ≡ record a { schema_version = b.schema_version }
unfolding same_settings
same_settings-equal a b h =
    let host : b.public_host ≡ a.public_host =
      ground (arith, string_Eq.beq_iff a.public_host b.public_host) in
    let subscribed : b.subscription_host ≡ a.subscription_host =
      ground (arith, string_Eq.beq_iff a.subscription_host b.subscription_host) in
    let reality : b.reality ≡ a.reality = ground (arith, same_reality-equal a.reality b.reality) in
    let hysteria : b.hysteria2 ≡ a.hysteria2 =
      ground (arith, same_hysteria2-equal a.hysteria2 b.hysteria2) in
    let subscription : b.subscription ≡ a.subscription =
      ground (arith, same_subscription-equal a.subscription b.subscription) in
    let probe : b.udp_probe ≡ a.udp_probe =
      ground (arith, same_option-equal same_probe same_probe-equal a.udp_probe b.udp_probe) in
    let state : b.state_dir ≡ a.state_dir =
      ground (arith, string_Eq.beq_iff a.state_dir b.state_dir) in
    let binary : b.singbox_binary ≡ a.singbox_binary =
      ground (arith, string_Eq.beq_iff a.singbox_binary b.singbox_binary) in
    λ i. record {
      schema_version = b.schema_version;
      public_host = host i;
      subscription_host = subscribed i;
      reality = reality i;
      hysteria2 = hysteria i;
      subscription = subscription i;
      udp_probe = probe i;
      state_dir = state i;
      singbox_binary = binary i;
    }
