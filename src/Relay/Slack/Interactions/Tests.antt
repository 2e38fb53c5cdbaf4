-- ===== src/Relay/Slack/Interactions/Tests.antt =====
-- A payload as in crates/relay/src/slack/interactions/tests.rs.
use slack_claude_remote.Prelude.{◌≡◌, refl, some, List, [], ◌∷◌}
use slack_claude_remote.Prelude.Text.{Text, codes, text_eq}
use slack_claude_remote.Json.{last_value}
use slack_claude_remote.Samples.Trees.{
  Tree, text, object, array, to_members, to_items, tree_get, tree_get_at, tree_str, tree_json,
}
use slack_claude_remote.Relay.Slack.Interactions.{Selection, selected_session}

abbrev fields : List (Text × Tree) → Tree
fields fs = object (to_members fs)

abbrev payload : Tree
payload = fields (
    (codes "type", text (codes "block_actions"))
    ∷ (
      codes "actions",
      array (
          to_items (
            fields (
              (codes "action_id", text (codes "sccr_select"))
              ∷ (codes "selected_option", fields ((codes "value", text (codes "mac:proj")) ∷ []))
              ∷ [])
            ∷ [])),
    )
    ∷ (codes "channel", fields ((codes "id", text (codes "C1")) ∷ []))
    ∷ (codes "user", fields ((codes "id", text (codes "U1")) ∷ []))
    ∷ (codes "response_url", text (codes "https://r"))
    ∷ [])

abbrev chosen : Selection
chosen = record {
  session = codes "mac:proj";
  channel = codes "C1";
  user = codes "U1";
  response_url = codes "https://r";
}

selects : selected_session tree_json payload ≡ some chosen
unfolding selected_session codes text_eq last_value tree_get tree_get_at tree_str to_members
    to_items
selects = refl
