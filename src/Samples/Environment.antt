-- ===== src/Samples/Environment.antt =====
-- The crates and the Slack of the other samples in one.
use slack_claude_remote.Prelude.{ℕ, if◌then◌else◌, none, some, List, [], ◌∷◌}
use slack_claude_remote.Prelude.Text.{Text, codes, text_eq}
use slack_claude_remote.Http.{Forms, Headers}
use slack_claude_remote.Samples.Encoding.{store_codec}
use slack_claude_remote.Samples.Messages.{message_codec}
use slack_claude_remote.Samples.Trees.{Tree, text, array, object, to_items, to_members, tree_json}
use slack_claude_remote.Samples.Worlds.{toy_crypto, willing, ann, mac_proj}
use slack_claude_remote.Relay.Slack.Events.{Candidate}
use slack_claude_remote.Relay.Slack.Interactions.{Selection}
use slack_claude_remote.Relay.Slack.Verify.{sign}
use slack_claude_remote.Relay.Routes.Env.{Env}

-- A command is a body that is its text.
abbrev pub toy_forms : Forms
toy_forms = record {
  command_form = λ body. some (record { user_id = ann; channel_id = 67 ∷ 49 ∷ []; text = body });
  interaction_payload = λ body. some body;
  token_label = λ body. some body;
  callback_query = λ query. none;
  inject_body = λ body. none;
}

abbrev members : List (Text × Tree) → Tree
members fs = object (to_members fs)

-- A reply under the root message 9.9, and the event that brings it.
abbrev pub reply_event : Tree
reply_event = members (
    (codes "type", text (codes "message"))
    ∷ (codes "channel", text (codes "C2"))
    ∷ (codes "user", text ann)
    ∷ (codes "thread_ts", text (codes "9.9"))
    ∷ (codes "ts", text (codes "10.0"))
    ∷ (codes "text", text (codes "hi"))
    ∷ [])

abbrev reply_callback : Tree
reply_callback = members (
    (codes "type", text (codes "event_callback"))
    ∷ (codes "event_id", text (codes "Ev7"))
    ∷ (codes "event", reply_event)
    ∷ [])

abbrev pub heard : Candidate
heard = record {
  chat_id = codes "C2:9.9";
  channel = codes "C2";
  thread_ts = codes "9.9";
  user = ann;
  text = codes "hi";
}

abbrev pub choice : Selection
choice = record {
  session = mac_proj;
  channel = codes "C2";
  user = ann;
  response_url = codes "https://r";
}

abbrev chosen : Tree
chosen = members (
    (codes "type", text (codes "block_actions"))
    ∷ (
      codes "actions",
      array (
          to_items (
            members (
              (codes "action_id", text (codes "sccr_select"))
              ∷ (codes "selected_option", members ((codes "value", text mac_proj) ∷ []))
              ∷ [])
            ∷ [])),
    )
    ∷ (codes "channel", members ((codes "id", text (codes "C2")) ∷ []))
    ∷ (codes "user", members ((codes "id", text ann) ∷ []))
    ∷ (codes "response_url", text (codes "https://r"))
    ∷ [])

-- Every body is that event, and every form has that choice.
abbrev pub toy_env : Env
toy_env = record {
  json = record tree_json { parse = λ s. some chosen; parse_bytes = λ bs. some reply_callback };
  crypto = toy_crypto;
  forms = toy_forms;
  codec = message_codec;
  store_codec = store_codec;
  api = willing;
}

abbrev pub signed : List ℕ → Headers
signed body name =
    if text_eq name (codes "x-slack-request-timestamp")
    then some (codes "1000")
    else if text_eq name (codes "x-slack-signature")
    then some (sign toy_crypto (codes "s") (codes "1000") body)
    else none
