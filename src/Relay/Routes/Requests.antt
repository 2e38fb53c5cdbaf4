-- ===== src/Relay/Routes/Requests.antt =====
-- A permission request on its way to its Slack thread (`handle_request` of
-- crates/relay/src/permission.rs).
pub mod Laws
pub mod Answered
mod Tests
use slack_claude_remote.Prelude.{ℕ, Option, none, some, ok, err}
use slack_claude_remote.Prelude.Int.{ℤ}
use slack_claude_remote.Prelude.Text.{Text, split_once}
use slack_claude_remote.Prelude.Map.{insert, remove}
use slack_claude_remote.Relay.Slack.Api.{SlackApi}
use slack_claude_remote.Relay.Permission.{Pending, sweep, latest_binding, prompt_text}
use slack_claude_remote.Relay.State.{AppState}
use slack_claude_remote.Relay.Routes.Pieces.{pieces_of, post_pieces}

abbrev pub colon : ℕ
colon = 58

module _ (api : SlackApi) where
  -- The posts of the prompt: at the first that is refused the request is forgotten.
  unfoldable pub post_prompt : (channel thread_ts request_id prompt : Text) → AppState → AppState
  post_prompt channel thread_ts request_id prompt s =
      let (answer, calls) = post_pieces api channel thread_ts (pieces_of prompt) s.calls in
      let posted = record s { calls = calls } in
      elim answer [
        | ok _ ↦ posted
        | err _ ↦ record posted { pending = remove request_id s.pending }
      ]

  unfoldable pub handle_request :
      ℤ → (session request_id tool_name description input_preview : Text) → AppState → AppState
  unfolding post_prompt
  handle_request now session request_id tool_name description input_preview s =
      let pending = sweep now s.pending in
      elim (latest_binding s.store.bindings session) [
        | none ↦ record s { pending = pending }
        | some (chat_id, _) ↦
            let asked : Pending = record { chat_id = chat_id; session = session; created = now } in
            let recorded = record s { pending = insert request_id asked pending } in
            elim (split_once colon chat_id) [
              | none ↦ record recorded { pending = remove request_id recorded.pending }
              | some (channel, thread_ts) ↦
                  post_prompt channel thread_ts request_id
                    (prompt_text tool_name description input_preview request_id) recorded
            ]
      ]
