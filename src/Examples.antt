-- ===== src/Examples.antt =====
-- Concrete inputs: codecs, keys and transports that satisfy the interfaces' laws, and the theorems of
-- the development applied to them.
mod Codecs
mod UserCodecs
mod Framing
mod Failures
mod Scores
mod Bundles
mod Caching
mod Users
mod Deployment
mod Serving
mod Connecting
mod Server
mod Admin
mod Rotate
mod Socks
mod Relay
mod Render
mod Lock
