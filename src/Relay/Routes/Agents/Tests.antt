-- ===== src/Relay/Routes/Agents/Tests.antt =====
-- An agent that connects, replies, receives and leaves.
use slack_claude_remote.Prelude.{
  ◌≡◌, ◌≢◌, refl, ap, ◌⊎◌, true, false, none, some, Option, [], ok, is_ok, if◌then◌else◌,
}
use slack_claude_remote.Prelude.Int.{pos}
use slack_claude_remote.Prelude.Text.{Text, codes, text_eq, is_control, contains}
use slack_claude_remote.Prelude.Sort.{IsDistinct, IsAscending}
use slack_claude_remote.Prelude.Map.{lookup, insert}
use slack_claude_remote.Http.{Headers, Response}
use slack_claude_remote.Protocol.{hello, inbound}
use slack_claude_remote.Samples.Worlds.{willing, unwilling, world, thread, ann}
use slack_claude_remote.Samples.Messages.{message_codec}
use slack_claude_remote.Relay.Hub.{fresh_channel, register, send, receive, list}
use slack_claude_remote.Relay.Hub.Laws.{channel_of}
use slack_claude_remote.Relay.State.{start}
use slack_claude_remote.Relay.Routes.Agents.{
  Frame, text_frame, outgoing, handshake, reply_thread, post_reply, serve_round, serve,
  checked_name, valid_session_name,
}
use slack_claude_remote.Relay.Routes.Agents.Laws.{IsWelcome, handshake_lem}
use slack_claude_remote.Relay.Routes.Agents.Connection.{
  Life, sending, Step, Reaches, IsInOrder, opened, connection-IsInOrder,
}
use slack_claude_remote.Relay.Routes.Agents.Sole as Sole
use slack_claude_remote.Relay.Routes.Agents.Sole.{Served, nobody, served_alone}
use slack_claude_remote.Relay.Routes.Agents.Replies.{IsPosted, post_reply_lem}

abbrev bearer : Headers
bearer name = some (codes "Bearer dev")

abbrev no_rejection : Option Response
no_rejection = none

abbrev frame : Frame
frame = text_frame (message_codec.write_agent (hello 1 (codes "b") (codes "h") (codes "/")))

handshake_lem_example :
    ((name : Text) × ((handshake message_codec (some frame) world.hub).0 ≡ ok name)
      × IsWelcome message_codec (some frame) name world.hub
      × ((other : Text)
          → channel_of other (handshake message_codec (some frame) world.hub).1
            ≡ (if text_eq name other then some fresh_channel else channel_of other world.hub)))
    ⊎ (is_ok (handshake message_codec (some frame) world.hub).0 ≡ false)
      × ((handshake message_codec (some frame) world.hub).1 ≡ world.hub)
      × ((name : Text) → ¬ IsWelcome message_codec (some frame) name world.hub)
handshake_lem_example = handshake_lem message_codec (some frame) world.hub

post_reply_lem_example :
    ((reply_thread thread ≡ none) ⊎ (codes "done" ≡ []))
      × (post_reply unwilling thread (codes "done") world ≡ world)
    ⊎ (codes "done" ≢ [])
      × ((channel thread_ts : Text) × (reply_thread thread ≡ some (channel, thread_ts))
          × IsPosted unwilling channel thread_ts
              (codes "done")
              world
              (post_reply unwilling thread (codes "done") world))
post_reply_lem_example = post_reply_lem unwilling thread (codes "done") world

abbrev b : Text
b = codes "b"

shaken :
    handshake message_codec (some frame) world.hub ≡ (ok b, (register b fresh_channel world.hub).1)
unfolding handshake checked_name valid_session_name is_control register lookup text_eq codes start
shaken = rw (message_codec.read-write_agent (hello 1 b (codes "h") (codes "/")), handshake) refl

-- A connection that is welcomed, is sent a message, and passes it on.
abbrev joined : Life
joined = opened willing message_codec (some frame) b world

abbrev waiting : Life
waiting = sending b b (inbound thread ann (codes "hi")) joined

abbrev passed : Life
passed = record waiting {
  link = (serve_round willing message_codec (pos 1) b (outgoing true) waiting.link).1;
}

goes_on : (serve_round willing message_codec (pos 1) b (outgoing true) waiting.link).0 ≡ true
unfolding serve serve_round receive send register lookup insert text_eq codes start
goes_on = rw (ap (λ r. r.1) shaken) refl

passes : Reaches willing message_codec b joined passed
passes =
    Reaches.step joined waiting passed (Step.sends b (inbound thread ann (codes "hi")) joined) (
      Reaches.step waiting passed passed (Step.round (pos 1) (outgoing true) waiting goes_on)
        (Reaches.stop passed))

connection-IsInOrder_example : IsInOrder willing message_codec b passed
connection-IsInOrder_example =
    connection-IsInOrder willing message_codec (some frame) b world passed (ap (λ r. r.0) shaken)
      passes

-- The same hello twice.
abbrev once : Served
once = record {
  hub = (handshake message_codec (some frame) nobody.hub).1;
  live = Sole.served_with (handshake message_codec (some frame) nobody.hub).0 nobody.live;
}

abbrev twice : Served
twice = record {
  hub = (handshake message_codec (some frame) once.hub).1;
  live = Sole.served_with (handshake message_codec (some frame) once.hub).0 once.live;
}

served_alone_example :
    IsDistinct twice.live
    × IsAscending (list twice.hub)
    × ((name : Text) → contains (list twice.hub) name ≡ contains twice.live name)
served_alone_example = served_alone message_codec twice (
    Sole.Reach.step nobody once twice (Sole.Step.hellos (some frame) nobody) (
      Sole.Reach.step once twice twice (Sole.Step.hellos (some frame) once)
        (Sole.Reach.stop twice)))
