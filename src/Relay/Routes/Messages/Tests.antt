-- ===== src/Relay/Routes/Messages/Tests.antt =====
-- Replies in a thread, as in crates/relay/src/routes/tests.rs and tests/permission.rs.
use slack_claude_remote.Prelude.{◌≡◌, refl, true, none, some, [], ◌∷◌, arith, inl}
use slack_claude_remote.Prelude.Int.{pos, sub_i64}
use slack_claude_remote.Prelude.Text.{
  codes, text_eq, is_ascii_lowercase, to_ascii_lowercase, trim, split_where, contains,
}
use slack_claude_remote.Prelude.Map.{lookup, insert, remove}
use slack_claude_remote.Protocol.{allow, permission_verdict}
use slack_claude_remote.Samples.Worlds.{mac_proj, bound, world, reply_yes, willing}
use slack_claude_remote.Relay.Hub.{fresh_channel, send}
use slack_claude_remote.Relay.Slack.Dedupe.{new, first_seen}
use slack_claude_remote.Relay.Slack.Dedupe.Laws.{new-IsValid}
use slack_claude_remote.Relay.Slack.Events.{Candidate}
use slack_claude_remote.Relay.Permission.{sweep, match_verdict, parse_verdict, behavior_of}
use slack_claude_remote.Relay.State.{AppState, start}
use slack_claude_remote.Relay.Routes.Messages.{
  forward, route_reply, handle_candidate, handle_message,
}
use slack_claude_remote.Relay.Routes.Messages.Verdicts.{
  Receives, IsAuthorised, verdict-IsAuthorised,
}
use slack_claude_remote.Relay.Routes.Messages.Delivery.{
  IsAnswered, message_for, handle_message-IsAnswered, handle_message_ignored, handle_all,
  redelivery_harmless,
}

abbrev answered : AppState
answered = handle_message willing (pos 1200) (codes "Ev1") (some reply_yes) world

verdict_sent :
    (lookup mac_proj answered.hub.agents
      ≡ some (record fresh_channel { queue = permission_verdict (codes "abcde") allow ∷ [] }))
    × (answered.pending ≡ [])
unfolding handle_message handle_candidate route_reply forward send insert remove lookup first_seen
    new start contains text_eq codes sweep sub_i64 match_verdict parse_verdict behavior_of trim
    split_where to_ascii_lowercase is_ascii_lowercase
verdict_sent = (refl, refl)

received : Receives mac_proj (permission_verdict (codes "abcde") allow) world.hub answered.hub
unfolding start lookup text_eq codes
received = record {
  was = fresh_channel;
  is = record fresh_channel { queue = permission_verdict (codes "abcde") allow ∷ [] };
  open_before = refl;
  open_after = verdict_sent.0;
  added = refl;
}

verdict-IsAuthorised_example :
    ((first_seen world.dedupe (codes "Ev1")).0 ≡ true)
    × ((c : Candidate) × (some reply_yes ≡ some c)
        × IsAuthorised willing
            (pos 1200)
            c
            mac_proj
            (codes "abcde")
            allow
            world.store
            world.pending
            answered.pending)
unfolding lookup
verdict-IsAuthorised_example =
    verdict-IsAuthorised willing (pos 1200) (codes "Ev1") (some reply_yes) world mac_proj
      (codes "abcde") allow (refl, tt) received

handle_message-IsAnswered_example :
    IsAnswered reply_yes mac_proj
      (message_for reply_yes (match_verdict (sweep (pos 1200) world.pending) reply_yes bound))
      world
      answered
unfolding first_seen new start contains text_eq codes lookup
handle_message-IsAnswered_example =
    handle_message-IsAnswered willing (pos 1200) (codes "Ev1") reply_yes bound world refl refl refl

handle_message_ignored_example :
    handle_message willing (pos 1200) (codes "Ev1") none answered
    ≡ record answered { dedupe = (first_seen answered.dedupe (codes "Ev1")).1 }
unfolding handle_message handle_candidate route_reply forward send insert remove lookup first_seen
    new start contains text_eq codes sweep sub_i64 match_verdict parse_verdict behavior_of trim
    split_where to_ascii_lowercase is_ascii_lowercase
handle_message_ignored_example =
    handle_message_ignored willing (pos 1200) (codes "Ev1") none answered (inl refl)

redelivery_harmless_example :
    handle_message willing
      (pos 1300)
      (codes "Ev1")
      (some reply_yes)
      (handle_all willing [] answered)
    ≡ handle_all willing [] answered
unfolding first_seen new start contains
redelivery_harmless_example =
    redelivery_harmless willing (pos 1200) (pos 1300) (codes "Ev1") (some reply_yes)
      (some reply_yes) [] world (new-IsValid 1000) refl (omega arith)
