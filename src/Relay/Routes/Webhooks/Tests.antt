-- ===== src/Relay/Routes/Webhooks/Tests.antt =====
-- Slack's calls on the sample state.
use slack_claude_remote.Prelude.{
  ◌+◌, ◌≡◌, refl, ◌⊎◌, true, none, some, [], ◌∷◌, ◌++◌, length, ok, err, arith, if◌then◌else◌,
}
use slack_claude_remote.Prelude.Int.{ℤ, pos, sub_i64, abs_i64}
use slack_claude_remote.Prelude.Text.{
  Text, parse_i64, is_empty, strip_prefix, utf8, codes, text_eq, contains,
}
use slack_claude_remote.Prelude.Map.{lookup}
use slack_claude_remote.Http.{Headers, CommandForm, status_only}
use slack_claude_remote.Json.{last_value}
use slack_claude_remote.Samples.Environment.{toy_env, signed, reply_event, heard, choice}
use slack_claude_remote.Samples.Trees.{Tree, to_members, tree_get, tree_str}
use slack_claude_remote.Samples.Worlds.{toy_mac, world, mac_proj, ann, thread}
use slack_claude_remote.Relay.Slack.Api.{SlackError, respond}
use slack_claude_remote.Relay.Slack.Verify.{base_string, sign, verify}
use slack_claude_remote.Relay.Slack.Events.{classify, candidate_from_event}
use slack_claude_remote.Relay.Slack.Commands.{parse, unbind}
use slack_claude_remote.Relay.Slack.Interactions.{Selection, selected_session}
use slack_claude_remote.Relay.State.{start}
use slack_claude_remote.Relay.Routes.Webhooks.{
  signature_ok, events, commands, interactions, unbind_threads, bind_selected, invite_bot,
}
use slack_claude_remote.Relay.Routes.Webhooks.Signed.{
  IsFromSlack, unsigned_refused, commands_lem, interactions_lem,
}
use slack_claude_remote.Relay.Routes.Webhooks.Bindings.{
  IsUsersThread, unbind_threads_lem, root_posted, bind_selected_lem, reply_finds_binding,
}

abbrev bare : Headers
bare name = none

foreign : ¬ IsFromSlack toy_env world bare [] (pos 1000)
foreign h = absurd (ground (arith, h.timestamp_is))

unsigned_refused_example :
    (events toy_env world bare [] (pos 1000) ≡ (status_only 401, none))
    × (commands toy_env world bare [] (pos 1000) ≡ (status_only 401, world))
    × ((later : ℤ) → interactions toy_env world bare [] (pos 1000) later ≡ (status_only 401, world))
unsigned_refused_example = unsigned_refused toy_env world bare [] (pos 1000) (omega arith) foreign

spawned : (events toy_env world (signed []) [] (pos 1000)).1 ≡ some (codes "Ev7", some heard)
unfolding events signature_ok verify parse_i64 sub_i64 abs_i64 base_string sign toy_mac classify
    candidate_from_event start codes text_eq tree_get tree_str to_members last_value is_empty
    strip_prefix utf8
spawned = refl

commands_lem_example :
    ((commands toy_env world (signed (codes "unbind")) (codes "unbind") (pos 1000)).1 ≡ world)
    ⊎ (IsFromSlack toy_env world (signed (codes "unbind")) (codes "unbind") (pos 1000)
        × ((form : CommandForm) × (toy_env.forms.command_form (codes "unbind") ≡ some form)
            × (contains world.store.users form.user_id ≡ true)
            × (parse form.text ≡ unbind)
            × ((commands toy_env world (signed (codes "unbind")) (codes "unbind") (pos 1000)).1
                ≡ (unbind_threads toy_env form.channel_id form.user_id world).1)))
commands_lem_example =
    commands_lem toy_env world (signed (codes "unbind")) (codes "unbind") (pos 1000) (omega arith)

interactions_lem_example :
    ((interactions toy_env world (signed []) [] (pos 1000) (pos 1001)).1 ≡ world)
    ⊎ (IsFromSlack toy_env world (signed []) [] (pos 1000)
        × ((text : Text) × (payload : Tree) × (sel : Selection) × (toy_env.forms.interaction_payload
                []
              ≡ some text)
            × (toy_env.json.parse text ≡ some payload)
            × (selected_session toy_env.json payload ≡ some sel)
            × (contains world.store.users sel.user ≡ true)
            × ((interactions toy_env world (signed []) [] (pos 1000) (pos 1001)).1
                ≡ bind_selected toy_env (pos 1001) sel world)))
interactions_lem_example =
    interactions_lem toy_env world (signed []) [] (pos 1000) (pos 1001) (omega arith)

unbind_threads_lem_example :
    (IsUsersThread (codes "C1") ann thread (lookup thread world.store.bindings)
        × (lookup thread (unbind_threads toy_env (codes "C1") ann world).1.store.bindings ≡ none)
      ⊎ (¬ IsUsersThread (codes "C1") ann thread (lookup thread world.store.bindings))
        × (lookup thread (unbind_threads toy_env (codes "C1") ann world).1.store.bindings
            ≡ lookup thread world.store.bindings))
    × ((unbind_threads toy_env (codes "C1") ann world).0
          + length (unbind_threads toy_env (codes "C1") ann world).1.store.bindings
        ≡ length world.store.bindings)
unfolding start lookup
unbind_threads_lem_example = unbind_threads_lem toy_env (codes "C1") ann thread world (refl, tt)

bind_selected_lem_example :
    ((ts : Text) × (toy_env.api.answer_post (root_posted choice world) ≡ ok ts)
      × ((bind_selected toy_env (pos 1001) choice world).calls ≡ root_posted choice world)
      × ((chat_id : Text)
          → lookup chat_id (bind_selected toy_env (pos 1001) choice world).store.bindings ≡ (
              if text_eq (choice.channel ++ codes ":" ++ ts) chat_id
              then some
                  (record { session = choice.session; user = choice.user; created = pos 1001 })
              else lookup chat_id world.store.bindings)))
    ⊎ ((e : SlackError) × (toy_env.api.answer_post (root_posted choice world) ≡ err e)
        × ((bind_selected toy_env (pos 1001) choice world).calls
            ≡ root_posted choice world ++ respond choice.response_url invite_bot ∷ [])
        × ((bind_selected toy_env (pos 1001) choice world).store ≡ world.store))
bind_selected_lem_example = bind_selected_lem toy_env (pos 1001) choice world

reply_finds_binding_example :
    lookup (codes "C2:9.9") (bind_selected toy_env (pos 1001) choice world).store.bindings
    ≡ some (record { session = mac_proj; user = ann; created = pos 1001 })
unfolding candidate_from_event tree_get tree_str to_members last_value codes text_eq
reply_finds_binding_example =
    reply_finds_binding toy_env (pos 1001) choice world (codes "9.9") reply_event heard refl refl
      refl refl
