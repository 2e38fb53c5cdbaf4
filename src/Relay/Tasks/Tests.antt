-- ===== src/Relay/Tasks/Tests.antt =====
-- A reply on its way through the turns of its task, its redelivery, and two replies at once.
use slack_claude_remote.Prelude.{ℕ, ◌≡◌, refl, some, arith, length, ◌+◌}
use native.Mathlib.Decide.{ℕ_discrete}
use slack_claude_remote.Prelude.Int.{pos, sub_i64}
use slack_claude_remote.Prelude.Text.{
  codes, text_eq, is_ascii_lowercase, to_ascii_lowercase, trim, split_where, contains,
}
use slack_claude_remote.Prelude.Map.{lookup}
use slack_claude_remote.Protocol.{allow, deny}
use slack_claude_remote.Samples.Worlds.{mac_proj, bound, world, reply_yes, willing}
use slack_claude_remote.Samples.Environment.{toy_env, choice}
use slack_claude_remote.Relay.Hub.{fresh_channel}
use slack_claude_remote.Relay.Slack.Dedupe.{new, first_seen}
use slack_claude_remote.Relay.Slack.Dedupe.Laws.{new-IsValid}
use slack_claude_remote.Relay.Slack.Events.{Candidate}
use slack_claude_remote.Relay.Permission.{sweep, match_verdict, parse_verdict, behavior_of}
use slack_claude_remote.Relay.State.{start}
use slack_claude_remote.Relay.Routes.Pieces.{pieces_of}
use slack_claude_remote.Relay.Hub.Laws.{channel_of}
use slack_claude_remote.Relay.Routes.Messages.{handle_message}
use slack_claude_remote.Relay.Routes.Requests.{handle_request}
use slack_claude_remote.Relay.Tasks
use slack_claude_remote.Relay.Tasks.{
  arrived, asking, choosing, matching, finished, Request, prompt_of, turn,
}
use slack_claude_remote.Relay.Tasks.Alone.{turns_alone, choice_handled}
use slack_claude_remote.Relay.Tasks.Sound.{IsSound}
use slack_claude_remote.Relay.Tasks.Repeats.{repeat_refused}
use slack_claude_remote.Relay.Tasks.Races.{both_answer, both_queued}
use slack_claude_remote.Relay.Tasks.Schedules.{}
use slack_claude_remote.Relay.Tasks.World.{
  World, update, message, begins, turns, Reach, here, later,
}

abbrev idle : World
idle = record { state = world; tasks = λ _. finished }

abbrev next : World → World
next w = record {
  state = (turn toy_env (pos 1200) (w.tasks 0) w.state).1;
  tasks = update w.tasks 0 (turn toy_env (pos 1200) (w.tasks 0) w.state).0;
}

abbrev begun : World
begun = record idle { tasks = update idle.tasks 0 (arrived (codes "Ev1") (some reply_yes)) }

abbrev about_to_send : World
about_to_send = next (next (next (next begun)))

sound : IsSound world
unfolding start new lookup
sound = record {
  agents = (refl, tt);
  requests = (refl, tt);
  bindings = (refl, tt);
  remembered = new-IsValid 1000;
}

abbrev question : Request
question = record {
  session = mac_proj;
  request_id = codes "fghij";
  tool_name = codes "Bash";
  description = codes "list";
  input_preview = codes "ls";
}

abbrev enough : ℕ
enough = 2 + length (pieces_of (prompt_of question))

turns_alone_example :
    (Tasks.turns toy_env (pos 1200) 6 (arrived (codes "Ev1") (some reply_yes)) world
      ≡ (finished, handle_message willing (pos 1200) (codes "Ev1") (some reply_yes) world))
    × (Tasks.turns toy_env (pos 1200) enough (asking question) world ≡ (
      finished,
      handle_request willing
          (pos 1200)
          mac_proj
          (codes "fghij")
          (codes "Bash")
          (codes "list")
          (codes "ls")
          world,
    ))
    × (Tasks.turns toy_env (pos 1200) 3 (choosing choice) world
        ≡ (finished, choice_handled toy_env (pos 1200) choice world))
turns_alone_example =
    turns_alone toy_env (pos 1200) (codes "Ev1") (some reply_yes) question choice 6 enough 3 world
      (omega arith) (omega arith) (omega arith)

-- The event again, as a task of its own, after the first look at it.
abbrev redelivered : World
redelivered = record (next begun) {
  tasks = update (next begun).tasks 1 (arrived (codes "Ev1") (some reply_yes));
}

repeat_refused_example :
    turn toy_env (pos 1300) (redelivered.tasks 1) redelivered.state ≡ (finished, redelivered.state)
unfolding turn ℕ_discrete first_seen new start contains
repeat_refused_example =
    repeat_refused toy_env (pos 1200) (pos 1300) 0 1 (codes "Ev1") (some reply_yes) (some reply_yes)
      begun redelivered (new-IsValid 1000) refl refl
      (later here (begins 1 (message (codes "Ev1") (some reply_yes)) refl)) (omega arith) refl

abbrev reply_no : Candidate
reply_no = record reply_yes { text = codes "no abcde" }

abbrev contradicted : World
contradicted = record {
  state = world;
  tasks = update (update (λ _. finished) 0 (matching reply_yes bound)) 1 (matching reply_no bound);
}

both_answer_example :
    (last : World) × Reach toy_env contradicted last
    × (channel_of mac_proj last.state.hub
        ≡ some (both_queued toy_env fresh_channel (codes "abcde") allow deny))
unfolding turn ℕ_discrete lookup start contains text_eq codes sweep sub_i64 match_verdict
    parse_verdict behavior_of trim split_where to_ascii_lowercase is_ascii_lowercase
both_answer_example =
    both_answer toy_env (pos 1200) 0 1 reply_yes reply_no bound (codes "abcde") allow deny
      fresh_channel contradicted (omega arith) refl refl refl refl refl refl
