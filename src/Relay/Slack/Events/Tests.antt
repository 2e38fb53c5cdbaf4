-- ===== src/Relay/Slack/Events/Tests.antt =====
-- Envelopes as in crates/relay/src/slack/events/tests.rs.
use slack_claude_remote.Prelude.{◌≡◌, refl, ◌↔◌, some, List, [], ◌∷◌}
use slack_claude_remote.Prelude.Text.{Text, codes, text_eq}
use slack_claude_remote.Json.{last_value}
use slack_claude_remote.Samples.Trees.{
  Tree, text, object, to_members, tree_get, tree_str, tree_json,
}
use slack_claude_remote.Relay.Slack.Events.{
  Candidate, url_verification, message, other, candidate_from_event, classify,
}
use slack_claude_remote.Relay.Slack.Events.Laws.{Means, classify_iff}

abbrev fields : List (Text × Tree) → Tree
fields fs = object (to_members fs)

abbrev reply_event : Tree
reply_event = fields (
    (codes "type", text (codes "message"))
    ∷ (codes "thread_ts", text (codes "1.0"))
    ∷ (codes "ts", text (codes "2.0"))
    ∷ (codes "channel", text (codes "C1"))
    ∷ (codes "user", text (codes "U1"))
    ∷ (codes "text", text (codes "hi"))
    ∷ [])

abbrev reply_callback : Tree
reply_callback = fields (
    (codes "type", text (codes "event_callback"))
    ∷ (codes "event_id", text (codes "Ev1"))
    ∷ (codes "event", reply_event)
    ∷ [])

abbrev reply : Candidate
reply = record {
  chat_id = codes "C1:1.0";
  channel = codes "C1";
  thread_ts = codes "1.0";
  user = codes "U1";
  text = codes "hi";
}

abbrev challenge : Tree
challenge =
    fields (
      (codes "type", text (codes "url_verification"))
      ∷ (codes "challenge", text (codes "abc"))
      ∷ [])

thread_reply : classify tree_json reply_callback ≡ message (codes "Ev1") (some reply)
unfolding classify candidate_from_event codes text_eq last_value tree_get tree_str to_members
thread_reply = refl

challenged : classify tree_json challenge ≡ url_verification (codes "abc")
unfolding classify codes text_eq last_value tree_get tree_str to_members
challenged = refl

not_an_object : classify tree_json (text (codes "x")) ≡ other
unfolding classify codes text_eq last_value tree_get tree_str to_members
not_an_object = refl

classify_iff_example :
    (classify tree_json reply_callback ≡ message (codes "Ev1") (some reply))
    ↔ Means tree_json reply_callback (message (codes "Ev1") (some reply))
classify_iff_example = classify_iff tree_json reply_callback (message (codes "Ev1") (some reply))
