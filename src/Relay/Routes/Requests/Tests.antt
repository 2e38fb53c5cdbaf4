-- ===== src/Relay/Routes/Requests/Tests.antt =====
-- A request of the connected session, its prompt, and the answer.
use slack_claude_remote.Prelude.{◌≡◌, refl, ◌⊎◌, none, some}
use slack_claude_remote.Prelude.Int.{pos, sub_i64}
use slack_claude_remote.Prelude.Text.{
  Text, codes, text_eq, contains, split_once, split_where, trim, to_ascii_lowercase,
  is_ascii_lowercase,
}
use slack_claude_remote.Prelude.Map.{lookup, insert, remove}
use slack_claude_remote.Protocol.{allow, permission_verdict}
use slack_claude_remote.Samples.Worlds.{willing, world, mac_proj, bound, thread, reply_yes}
use slack_claude_remote.Relay.Chunk.{chunk}
use slack_claude_remote.Relay.Slack.Api.{post_message}
use slack_claude_remote.Relay.Slack.Api.Escape.{escape_mrkdwn}
use slack_claude_remote.Relay.Slack.Dedupe.{first_seen, new}
use slack_claude_remote.Relay.Store.{Binding}
use slack_claude_remote.Relay.Permission.{
  Pending, latest_binding, sweep, prompt_text, parse_verdict, behavior_of,
}
use slack_claude_remote.Relay.State.{AppState, start}
use slack_claude_remote.Relay.Routes.Messages.{handle_message}
use slack_claude_remote.Relay.Routes.Messages.Delivery.{IsAnswered}
use slack_claude_remote.Relay.Routes.Pieces.{pieces_of, pieces_of-chunk, post_pieces}
use slack_claude_remote.Relay.Routes.Requests.{handle_request, post_prompt}
use slack_claude_remote.Relay.Routes.Requests.Laws.{Outcome, IsAsked, handle_request_lem}
use slack_claude_remote.Relay.Routes.Requests.Answered.{request-IsAnswered}

abbrev prompt : Text
prompt = prompt_text (codes "Bash") (codes "list") (codes "ls") (codes "abcde")

abbrev requested : AppState
requested =
    handle_request willing (pos 1100) mac_proj (codes "abcde") (codes "Bash") (codes "list")
      (codes "ls") world

abbrev request : Pending
request = record { chat_id = thread; session = mac_proj; created = pos 1100 }

handle_request_lem_example :
    (latest_binding world.store.bindings mac_proj ≡ none)
      × (requested ≡ record world { pending = sweep (pos 1100) world.pending })
    ⊎ ((b : Text × Binding) × (latest_binding world.store.bindings mac_proj ≡ some b)
        × Outcome willing b.0 prompt
            (codes "abcde")
            (record { chat_id = b.0; session = mac_proj; created = pos 1100 })
            world
            requested)
handle_request_lem_example =
    handle_request_lem willing (pos 1100) mac_proj (codes "abcde") (codes "Bash") (codes "list")
      (codes "ls") world

in_thread : IsAsked thread prompt (codes "abcde") request world.calls requested
unfolding handle_request latest_binding text_eq codes lookup insert remove start split_once
    post_prompt post_pieces chunk sweep sub_i64 prompt_text escape_mrkdwn post_message
in_thread = record {
  channel = codes "C1";
  thread_ts = codes "1.0";
  split = refl;
  pieces = pieces_of prompt;
  whole = (pieces_of-chunk prompt).1;
  posted = refl;
  waits = refl;
}

request-IsAnswered_example :
    IsAnswered reply_yes mac_proj
      (permission_verdict (codes "abcde") allow)
      requested
      (handle_message willing (pos 1200) (codes "Ev1") (some reply_yes) requested)
unfolding lookup text_eq codes contains sub_i64 parse_verdict behavior_of trim split_where
    to_ascii_lowercase is_ascii_lowercase handle_request latest_binding split_once post_prompt
    post_pieces first_seen new start chunk prompt_text escape_mrkdwn post_message
request-IsAnswered_example =
    request-IsAnswered willing (pos 1100) (pos 1200) mac_proj (codes "abcde") (codes "Bash")
      (codes "list") (codes "ls") (codes "Ev1") reply_yes bound allow world requested refl
      (refl, tt) refl refl in_thread refl refl refl refl refl
