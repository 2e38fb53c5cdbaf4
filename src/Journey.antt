-- ===== src/Journey.antt =====
-- The way of a message through agent and relay, from end to end (crates/agent/src/ws.rs and stdio.rs,
-- crates/relay/src/routes/agent_ws.rs), over sockets that keep the order of their frames.
pub mod ToClaude
pub mod ToSlack
mod Tests
