-- ===== src/Relay/Slack/Api/Tests.antt =====
-- Escaping and answers of Slack, as in crates/relay/src/slack/api.rs.
use slack_claude_remote.Prelude.{◌≡◌, refl, true, none, [], ◌∷◌, ok}
use slack_claude_remote.Prelude.Text.{codes, text_eq, decimal, decimal_padded}
use slack_claude_remote.Json.{last_value}
use slack_claude_remote.Samples.Trees.{
  Tree, text, truth, object, to_members, tree_get, tree_bool, tree_str, tree_json,
}
use slack_claude_remote.Relay.Slack.Api.{FakeSlack_new, fake_post, post_result}
use slack_claude_remote.Relay.Slack.Api.Escape.{escape_mrkdwn}

escaped : escape_mrkdwn (codes "a<b>&c") ≡ codes "a&lt;b&gt;&amp;c"
unfolding escape_mrkdwn codes
escaped = refl

first_fake :
    (fake_post FakeSlack_new (codes "C") none (codes "hi")).0 ≡ ok (codes "1700000000.000001")
unfolding fake_post decimal_padded decimal codes
first_fake = refl

abbrev accepted : Tree
accepted = object (to_members ((codes "ok", truth true) ∷ (codes "ts", text (codes "1.0")) ∷ []))

posted : post_result tree_json (ok accepted) ≡ ok (codes "1.0")
unfolding post_result codes text_eq last_value tree_get tree_bool tree_str to_members
posted = refl
