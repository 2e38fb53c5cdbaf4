-- ===== src/Protocol.antt =====
-- The messages between agent and relay (crates/protocol/src/lib.rs).
-- How serde writes and reads them is not the crate's code: `Codec` is what its users take for it.
use slack_claude_remote.Prelude.{ℕ, ◌≡◌, Option, some}
use slack_claude_remote.Prelude.Text.{Text}

abbrev pub protocol_version : ℕ
protocol_version = 1

pub data Behavior : Type 0 where
  allow deny : Behavior

pub data AgentMsg : Type 0 where
  hello : (version : ℕ) (name host cwd : Text) → AgentMsg
  reply : (chat_id text : Text) → AgentMsg
  permission_request : (request_id tool_name description input_preview : Text) → AgentMsg

pub data RelayMsg : Type 0 where
  welcome : (name : Text) → RelayMsg
  inbound : (chat_id user text : Text) → RelayMsg
  permission_verdict : (request_id : Text) → Behavior → RelayMsg
  error : (message : Text) → RelayMsg

-- serde_json on the two message types: what is written is read back.
pub record Codec : Type 0 where
  pub write_agent : AgentMsg → Text
  pub read_agent : Text → Option AgentMsg
  pub write_relay : RelayMsg → Text
  pub read_relay : Text → Option RelayMsg
  pub read-write_agent : (m : AgentMsg) → read_agent (write_agent m) ≡ some m
  pub read-write_relay : (m : RelayMsg) → read_relay (write_relay m) ≡ some m
