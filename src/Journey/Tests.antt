-- ===== src/Journey/Tests.antt =====
-- A message to Claude, and a reply of Claude, from end to end.
use slack_claude_remote.Prelude.{◌≡◌, refl, true, some, List, [], ◌∷◌, ◌++◌}
use slack_claude_remote.Prelude.Int.{pos}
use slack_claude_remote.Prelude.Text.{codes, text_eq, is_control}
use slack_claude_remote.Prelude.Map.{lookup, insert}
use slack_claude_remote.Protocol.{welcome, inbound}
use slack_claude_remote.Samples.Trees.{tree_json}
use slack_claude_remote.Samples.Lines.{lines as sample_lines}
use slack_claude_remote.Samples.Messages.{message_codec}
use slack_claude_remote.Samples.Worlds.{willing, world, mac_proj, thread, ann}
use slack_claude_remote.Relay.Hub.{Channel, fresh_channel, register, unregister, send, receive}
use slack_claude_remote.Relay.Hub.Laws.{channel_of}
use slack_claude_remote.Relay.State.{start}
use slack_claude_remote.Relay.Routes.Agents.{outgoing, serve_round, valid_session_name}
use slack_claude_remote.Relay.Routes.Agents.Connection.{Life, sending, Step, Reaches}
use slack_claude_remote.Agent.Stdio as Stdio
use slack_claude_remote.Agent.Stdio.{Streams, line}
use slack_claude_remote.Agent.Stdio.Laws.{messages}
use slack_claude_remote.Agent.Ws.{Backoff, Identity, Client, session_loop}
use slack_claude_remote.Agent.Ws.Frames.{lines, frames}
use slack_claude_remote.Journey.ToClaude.{hears_in_order}
use slack_claude_remote.Journey.ToSlack.{act_all, delivered, slack_hears}

abbrev delays : Backoff
delays = record { initial = 1000; max = 30000 }

abbrev self : Identity
self = record { name = codes "box:proj"; host = codes "box"; cwd = codes "/a/proj" }

abbrev idle : Client tree_json [] message_codec delays self
idle = record { wait = 1000; to_stdout = []; wire = [] }

-- A connection that was welcomed, is sent a message, and passes it on.
abbrev joined : Life
joined = record { link = record { state = world; wire = welcome mac_proj ∷ [] }; accepted = [] }

abbrev waiting : Life
waiting = sending mac_proj mac_proj (inbound thread ann (codes "hi")) joined

abbrev passed : Life
passed = record waiting {
  link = (serve_round willing message_codec (pos 1) mac_proj (outgoing true) waiting.link).1;
}

goes_on : (serve_round willing message_codec (pos 1) mac_proj (outgoing true) waiting.link).0 ≡ true
unfolding serve_round receive send lookup insert text_eq codes start
goes_on = refl

passes : Reaches willing message_codec mac_proj joined passed
passes =
    Reaches.step joined waiting passed
      (Step.sends mac_proj (inbound thread ann (codes "hi")) joined)
      (Reaches.step waiting passed passed (Step.round (pos 1) (outgoing true) waiting goes_on)
        (Reaches.stop passed))

hears_in_order_example :
    (tx : Channel) × (channel_of mac_proj passed.link.state.hub ≡ some tx)
    × ((session_loop tree_json [] message_codec delays self
            (frames tree_json [] message_codec delays self passed.link.wire)
            idle).1.to_stdout
          ++ lines tree_json [] message_codec delays self tx.queue
        ≡ [] ++ lines tree_json [] message_codec delays self passed.accepted)
unfolding lookup text_eq codes start send
hears_in_order_example =
    hears_in_order tree_json [] message_codec delays self willing mac_proj joined passed idle passes
      (fresh_channel, refl, refl) tt

-- Claude replies and then asks.
abbrev written : List (Stdio.Event sample_lines [])
written = line (codes "c") true ∷ line (codes "a") true ∷ []

abbrev streams : Streams sample_lines []
streams = record { output = []; to_relay = []; stdout_open = true }

abbrev quiet : Client sample_lines [] message_codec delays self
quiet = record { wait = 1000; to_stdout = []; wire = [] }

slack_hears_example :
    let before = record world { hub = (register (codes "box:proj") fresh_channel world.hub).1 } in
    let done =
      act_all willing (pos 1) (codes "box:proj") (messages sample_lines [] written) before in
    delivered sample_lines [] message_codec delays self willing (pos 1) written streams quiet world
    ≡ record done { hub = unregister (codes "box:proj") done.hub }
unfolding lookup text_eq codes start valid_session_name is_control
slack_hears_example =
    slack_hears sample_lines [] message_codec delays self willing (pos 1) written streams quiet
      world (refl, (refl, tt)) refl refl refl refl refl
