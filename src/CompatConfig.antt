-- ===== src/CompatConfig.antt =====
-- crates/compat-config: the state of the compatibility users on the host's disk, and its migration.
pub mod Disk
pub mod Model
pub mod Users
pub mod Deployment
pub mod Server
pub mod Render
