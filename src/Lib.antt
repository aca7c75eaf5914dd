-- ===== src/Lib.antt =====
-- A model of the core of a VPN whose clients choose among relays on their own, with the theorems that
-- make it correct.
--
-- The program. A rendezvous service (services/rendezvous) hands out small bundles of relays, signed
-- under a chain of keys from a pinned root (crates/crypto, crates/config). A client fetches a bundle,
-- verifies it and keeps it for outages (crates/rendezvous-client). Its connection engine
-- (apps/client-daemon/src/engine.rs) builds candidates from the relays and the transports it has,
-- chooses one by weight (crates/policy), dials it, and records the outcome in the scores and in a
-- guard (crates/failure-classifier) that stops it while almost nothing gets through. What is behind a
-- failure is named by crates/network-state. A destination travels in a small header
-- (crates/common/src/framing.rs). Users of other clients get their configuration from the subscription
-- service (services/subscription), which reads the users' file; crates/compat-config keeps that file,
-- migrates it and the deployment file, and renders what sing-box may admit. The admin tool
-- (apps/admin) changes the users: it has sing-box load the new configuration before it writes them.
-- Relays (services/relay-agent) forward streams, also to one another. Programs on the client's machine
-- reach the engine through a SOCKS listener (apps/client-daemon/src/socks.rs).
--
-- Prelude         Boolean tests, lists, results, machine words, floats and maps that the rest shares.
-- Common          crates/common: `saturating_add_secs`, `from_millis`, and in Framing the header:
--                 `encode_destination`, `decode_destination`, `read_destination`.
-- NetworkState    crates/network-state: `FailureCategory` and its attribution.
-- FailureClassifier  crates/failure-classifier: `transition`, `ShutdownGuard` with `record_outcome`
--                 (`record`) and `should_suppress_switching`.
-- Policy          crates/policy: `Score`, `ScoreBoard` with `observe_success`, `observe_failure` and
--                 `select_next`; KillSwitch is src/killswitch.rs there.
-- Crypto          crates/crypto: keys, `KeyCertificate` and key files.
-- Config          crates/config: `verify_bundle`, `sign_bundle` (`SignedBundle::sign`), revocation
--                 lists and their signed form (`list_bytes`, `issue_list` and `verify_list` are
--                 `signing_bytes`, `issue` and `verify` there).
-- RendezvousClient  crates/rendezvous-client: `get_bundle` and the cache.
-- Engine          apps/client-daemon/src/engine.rs: `ConnectionEngine`; `connect` is in
--                 Engine/Connect, one attempt after another, and lists what it dialled.
-- Rendezvous      services/rendezvous/src/lib.rs: `get_relay_bundle` and the rate limiter.
-- Subscription    services/subscription/src/lib.rs: `get_subscription` with what it renders (of
--                 CompatConfig), and in Eviction its limiter.
-- CompatConfig    crates/compat-config: Model is src/model.rs, Users is src/store.rs, Deployment is
--                 src/deployment.rs, Disk is src/migrate.rs and src/ownership.rs.
--                 Server is src/server.rs: the configuration of sing-box, which secrets it admits
--                 (Accepts), and how it is put in place (Apply). Render is src/render.rs: the
--                 configuration of a client and, in Uri, the links; a reader of links stands in
--                 Uri/Reader.
-- Admin           apps/admin: Service is src/service.rs; Apply is `render_and_apply_singbox_config`,
--                 Users the user commands, Rotate `cmd_reality_rotate` and Archive the extraction of a
--                 backup, in src/main.rs. Lock is `command_mutates_state` and src/lock.rs: processes
--                 that run commands side by side, one action at a time, in any order.
--                 The world is the disk and what systemd last had sing-box load.
-- RelayAgent      services/relay-agent/src/lib.rs: the slots of the listener over any order of events,
--                 the copy with its idle limit, and `handle_stream` for relays in a row.
-- Socks           apps/client-daemon/src/socks.rs: `handle_client` as a function of the client's
--                 bytes; Address is the text of an address, and Request the bytes of a client that
--                 asks for a destination, as RFC 1928 gives them.
-- Examples        Small instances of the interfaces, and the theorems applied to them.
--
-- State is passed explicitly: an operation takes the state and gives the new one beside its result.
-- Numbers are natural numbers; a `u64` that can wrap is written with its remainder, a saturating
-- addition with its bound. Floats are an interface (F32, F64) with the laws of rounded arithmetic that
-- are relied on, for F32 between 0 and 1, and an exact instance. Code of other packages is an interface with its laws: `rand`
-- (Policy/Random), `ed25519-dalek` (Crypto/Dalek), `hex` (Crypto/Hex), `serde_json` (PayloadJson,
-- BundleJson, UsersJson), the transports (Engine/Outside). The clock, the random draws, the answers of
-- the network, of systemd and of the disk are arguments; calls of the disk that are alike and stand in
-- the same phase of a command have one answer. The loop of `connect` runs over the attempts
-- that are left. Three loops take fuel: that of `reload_and_verify` eleven rounds, which the sleep
-- before each check makes enough, the drawing of a fresh identifier as many rounds as its caller
-- says, and the digits of a port five, which are enough for a u16. The texts of errors are left out.
--
-- Not modelled: calls of `connect` that interleave at its locks, commands that are killed while they
-- have the state lock, the generation of credentials, the loading of the key files, which a machine
-- of the model has done, TLS and QUIC sessions, sockets that can no longer be written to, and of
-- the admin tool the generation of keys, the rotation of the obfuscation password, the restore
-- after the extraction, and what only reports: `status`, `doctor` and the printed texts, whose
-- work is on sockets, processes and terminals.
pub mod Prelude
pub mod Common
pub mod NetworkState
pub mod FailureClassifier
pub mod Policy
pub mod Crypto
pub mod Config
pub mod RendezvousClient
pub mod Subscription
pub mod Rendezvous
pub mod CompatConfig
pub mod Engine
pub mod Admin
pub mod RelayAgent
pub mod Socks
pub mod Examples
