-- ===== src/Relay/Tasks/Schedules/Tests.antt =====
-- A reply on its way beside two agents that connected in either order.
use slack_claude_remote.Prelude.{◌≡◌, refl, some, List, [], ◌∷◌, arith}
use slack_claude_remote.Prelude.Int.{pos}
use slack_claude_remote.Prelude.Text.{codes, text_eq, text_eq_iff}
use slack_claude_remote.Prelude.Map.{lookup}
use slack_claude_remote.Samples.Worlds.{mac_proj, world, reply_yes}
use slack_claude_remote.Samples.Environment.{toy_env}
use slack_claude_remote.Relay.Store.{load, read_file}
use slack_claude_remote.Relay.Hub.{fresh_channel}
use slack_claude_remote.Relay.Slack.Dedupe.{new}
use slack_claude_remote.Relay.Slack.Dedupe.Laws.{new-IsValid}
use slack_claude_remote.Relay.State.{start}
use slack_claude_remote.Relay.Tasks.{arrived}
use slack_claude_remote.Relay.Tasks.Sound.{IsSound}
use slack_claude_remote.Relay.Hub.Table.{lists}
use slack_claude_remote.Relay.Tasks.Unordered.{Alike}
use slack_claude_remote.Relay.Tasks.Schedules.{
  Move, has_turn, calls_hub, run_moves, run_moves-Alike,
}
use slack_claude_remote.Relay.Tasks.World.{World}

-- Two agents, connected in either order, with a reply on its way to one of them.
abbrev in_order : World
in_order = record {
  state = record world {
    hub = record { agents = (mac_proj, fresh_channel) ∷ (codes "b", fresh_channel) ∷ [] };
  };
  tasks = λ _. arrived (codes "Ev1") (some reply_yes);
}

abbrev in_reverse : World
in_reverse = record {
  state = record world {
    hub = record { agents = (codes "b", fresh_channel) ∷ (mac_proj, fresh_channel) ∷ [] };
  };
  tasks = λ _. arrived (codes "Ev1") (some reply_yes);
}

in_order-IsSound : IsSound in_order.state
unfolding start new lookup text_eq codes
in_order-IsSound = record {
  agents = (refl, (refl, tt));
  requests = (refl, tt);
  bindings = (refl, tt);
  remembered = new-IsValid 1000;
}

in_reverse-IsSound : IsSound in_reverse.state
unfolding start new lookup text_eq codes
in_reverse-IsSound = record {
  agents = (refl, (refl, tt));
  requests = (refl, tt);
  bindings = (refl, tt);
  remembered = new-IsValid 1000;
}

swapped : Alike toy_env in_order.state in_reverse.state
unfolding start lookup load read_file
swapped = (
  (λ k. ground (arith, text_eq_iff mac_proj k, text_eq_iff (codes "b") k)),
  (λ k. refl),
  (λ k. refl),
  (refl, refl, λ k. refl),
  refl,
)

abbrev moves : List Move
moves = has_turn (pos 1200) 0 ∷ has_turn (pos 1200) 0 ∷ calls_hub lists ∷ []

run_moves-Alike_example :
    ((run_moves toy_env moves in_order).0 ≡ (run_moves toy_env moves in_reverse).0)
    × ((run_moves toy_env moves in_order).1.tasks ≡ (run_moves toy_env moves in_reverse).1.tasks)
    × ((run_moves toy_env moves in_order).1.state.calls
        ≡ (run_moves toy_env moves in_reverse).1.state.calls)
    × Alike toy_env
        (run_moves toy_env moves in_order).1.state
        (run_moves toy_env moves in_reverse).1.state
run_moves-Alike_example =
    run_moves-Alike toy_env moves in_order in_reverse
      (in_order-IsSound, in_reverse-IsSound, refl, swapped)
