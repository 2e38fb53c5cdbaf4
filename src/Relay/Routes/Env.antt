-- ===== src/Relay/Routes/Env.antt =====
-- What the handlers are given: the crates they call, and Slack.
use slack_claude_remote.Json.{Json}
use slack_claude_remote.Crypto.{Crypto}
use slack_claude_remote.Http.{Forms}
use slack_claude_remote.Protocol.{Codec}
use slack_claude_remote.Relay.Store.{StoreCodec}
use slack_claude_remote.Relay.Slack.Api.{SlackApi}

pub record Env : Type 1 where
  pub json : Json
  pub crypto : Crypto
  pub forms : Forms
  pub codec : Codec
  pub store_codec : StoreCodec
  pub api : SlackApi
