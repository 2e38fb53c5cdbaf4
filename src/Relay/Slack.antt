-- ===== src/Relay/Slack.antt =====
-- The boundary with Slack (crates/relay/src/slack).
pub mod Api
pub mod Http
pub mod Verify
pub mod Events
pub mod Dedupe
pub mod Commands
pub mod Interactions
