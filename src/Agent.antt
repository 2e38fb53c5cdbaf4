-- ===== src/Agent.antt =====
-- The agent beside a Claude Code session (crates/agent/src).
pub mod Mcp
pub mod Stdio
pub mod Ws
pub mod Main
