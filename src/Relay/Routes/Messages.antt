-- ===== src/Relay/Routes/Messages.antt =====
-- A reply in a Slack thread on its way to the agent (`handle_message`, `notify_offline` of
-- crates/relay/src/routes/slack.rs). `now` is the clock at the call of `sweep`.
pub mod Verdicts
pub mod Delivery
mod Tests
use slack_claude_remote.Prelude.{Bool, Option, none, some, ◌++◌, Result, ok, err, if◌then◌else◌}
use slack_claude_remote.Prelude.Int.{ℤ}
use slack_claude_remote.Prelude.Text.{Text, codes, contains}
use slack_claude_remote.Prelude.Map.{lookup, remove}
use slack_claude_remote.Protocol.{RelayMsg, inbound, permission_verdict}
use slack_claude_remote.Relay.Slack.Api.{SlackApi, post_message}
use slack_claude_remote.Relay.Slack.Api.Escape.{escape_mrkdwn}
use slack_claude_remote.Relay.Slack.Dedupe.{first_seen}
use slack_claude_remote.Relay.Slack.Events.{Candidate}
use slack_claude_remote.Relay.Store.{Binding}
use slack_claude_remote.Relay.Hub.{send}
use slack_claude_remote.Relay.Permission.{sweep, match_verdict}
use slack_claude_remote.Relay.State.{AppState}

unfoldable pub offline_notice : Text → Text
offline_notice session =
    codes "Session *"
    ++ escape_mrkdwn session
    ++ codes "* is offline. Your message was not delivered."

module _ (api : SlackApi) where
  -- An error of the post is only logged.
  unfoldable pub notify_offline : Candidate → Text → AppState → AppState
  notify_offline c session s =
      let (_, calls) =
        post_message api c.channel (some c.thread_ts) (offline_notice session) s.calls in
      record s { calls = calls }

  -- The send of a message, and the notice if the session is offline.
  unfoldable pub forward : Candidate → Text → RelayMsg → AppState → AppState
  unfolding notify_offline
  forward c session msg s =
      let (sent, hub) = send session msg s.hub in
      elim sent [ ok _ ↦ record s { hub = hub } | err _ ↦ notify_offline c session s ]

  -- From the sweep on: a verdict consumes its request, any other text is passed on.
  unfoldable pub route_reply : ℤ → Candidate → Binding → AppState → AppState
  route_reply now c binding s =
      let pending = sweep now s.pending in
      elim (match_verdict pending c binding) [
        | some (request_id, behavior) ↦
            forward c binding.session (permission_verdict request_id behavior)
              (record s { pending = remove request_id pending })
        | none ↦
            forward c binding.session (inbound c.chat_id c.user c.text)
              (record s { pending = pending })
      ]

  -- From the lock of the store on.
  unfoldable pub handle_candidate : ℤ → Candidate → AppState → AppState
  handle_candidate now c s =
      if contains s.store.users c.user
      then elim (lookup c.chat_id s.store.bindings) [
        | some binding ↦ route_reply now c binding s
        | none ↦ s
      ]
      else s

  unfoldable pub handle_message : ℤ → Text → Option Candidate → AppState → AppState
  handle_message now event_id candidate s =
      let (first, dedupe) = first_seen s.dedupe event_id in
      let seen = record s { dedupe = dedupe } in
      if first then elim candidate [ some c ↦ handle_candidate now c seen | none ↦ seen ] else seen
