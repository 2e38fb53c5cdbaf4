-- ===== src/Relay.antt =====
-- The relay (crates/relay/src).
pub mod Chunk
pub mod Slack
pub mod Hub
pub mod Store
pub mod Session
pub mod Permission
pub mod Config
pub mod State
pub mod Routes
pub mod Auth
pub mod Main
pub mod Tasks
