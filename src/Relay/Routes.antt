-- ===== src/Relay/Routes.antt =====
-- The HTTP surface of the relay (crates/relay/src/routes).
pub mod Env
pub mod Dev
pub mod Messages
pub mod Pieces
pub mod Requests
pub mod Agents
pub mod Webhooks
pub mod App
