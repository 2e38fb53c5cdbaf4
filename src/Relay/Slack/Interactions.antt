-- ===== src/Relay/Slack/Interactions.antt =====
-- The payload of a choice in the session picker (crates/relay/src/slack/interactions.rs).
pub mod Laws
mod Tests
use slack_claude_remote.Prelude.{Option, none, some, if◌then◌else◌, ◌>>=?◌ as ◌>>=◌}
use slack_claude_remote.Prelude.Text.{Text, codes}
use slack_claude_remote.Json.{Json, str_field, is_text}

pub record Selection : Type 0 where
  pub session : Text
  pub channel : Text
  pub user : Text
  pub response_url : Text

module _ (json : Json) where
  open json use {Value, get, get_at, as_str}

  -- `v.get(k)?.get(l)?.as_str()`
  abbrev pub nested_str : Value → Text → Text → Option Text
  nested_str v k l = get v k >>= λ w. str_field json w l

  unfoldable pub selected_session : Value → Option Selection
  selected_session payload =
      if is_text (str_field json payload (codes "type")) (codes "block_actions")
      then (do
        actions ← get payload (codes "actions")
        action ← get_at actions 0
        if is_text (str_field json action (codes "action_id")) (codes "sccr_select")
            then (do
              session ← nested_str action (codes "selected_option") (codes "value")
              channel ← nested_str payload (codes "channel") (codes "id")
              user ← nested_str payload (codes "user") (codes "id")
              response_url ← str_field json payload (codes "response_url")
              some (record {
                session = session;
                channel = channel;
                user = user;
                response_url = response_url;
              }))
            else none)
      else none
