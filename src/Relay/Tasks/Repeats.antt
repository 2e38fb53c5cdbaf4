-- ===== src/Relay/Tasks/Repeats.antt =====
-- An event that is delivered again is handled once, whatever the order of the turns.
use slack_claude_remote.Prelude.{
  ℕ, ◌<◌, ◌≡◌, refl, sym, ap, ◌∙◌, true, false, Option, List, [], ◌∷◌, ◌++◌, length, length-append,
  arith,
}
use slack_claude_remote.Prelude.Int.{ℤ}
use slack_claude_remote.Prelude.Text.{Text}
use slack_claude_remote.Relay.Slack.Events.{Candidate}
use slack_claude_remote.Relay.Slack.Dedupe.{Dedupe, first_seen, feed}
use slack_claude_remote.Relay.Slack.Dedupe.Laws.{IsValid}
use slack_claude_remote.Relay.Slack.Dedupe.Memory.{redelivery_refused}
use slack_claude_remote.Relay.State.{AppState, save_store}
use slack_claude_remote.Relay.Store.{Store}
use slack_claude_remote.Relay.Routes.Env.{Env}
use slack_claude_remote.Relay.Routes.Messages.{notify_offline}
use slack_claude_remote.Relay.Routes.Webhooks.{unbind_threads}
use slack_claude_remote.Relay.Auth.Admin.{commit}
use slack_claude_remote.Relay.Tasks.{
  Task, arrived, admitted, matching, consuming, sending, refused, asking, prompting, forgetting,
  choosing, rooting, binding_thread, inviting, finished, turn,
}
use slack_claude_remote.Relay.Tasks.World.{
  World, Section, joins, leaves, takes, injects, unbinds, commits, logs_in, posts_reply, begins,
  turns, elsewhere, Reach, here, later, update, is_arrival, arrivals,
}

-- The event ids that a task looks up at its turn.
abbrev event_ids : Task → List Text
event_ids (arrived event_id _) = event_id ∷ []
event_ids _ = []

length-event_ids : (t : Task) → length (event_ids t) ≡ is_arrival t
length-event_ids (arrived event_id candidate) = refl
length-event_ids (admitted _) = refl
length-event_ids (matching _ _) = refl
length-event_ids (consuming _ _ _ _) = refl
length-event_ids (sending _ _ _) = refl
length-event_ids (refused _ _) = refl
length-event_ids (asking _) = refl
length-event_ids (prompting _ _ _ _) = refl
length-event_ids (forgetting _) = refl
length-event_ids (choosing _) = refl
length-event_ids (rooting _) = refl
length-event_ids (binding_thread _ _) = refl
length-event_ids (inviting _) = refl
length-event_ids finished = refl

feed-append : (d : Dedupe) (ids more : List Text) → feed d (ids ++ more) ≡ feed (feed d ids) more
unfolding feed
feed-append d [] more = refl
feed-append d (id ∷ ids) more = feed-append (first_seen d id).1 ids more

first_seen_again : (d : Dedupe) (id : Text) → (first_seen d id).0 ≡ false → (first_seen d id).1 ≡ d
unfolding first_seen
first_seen_again d id again = ground arith

module _ (env : Env) where
  dedupe-turn :
      (now : ℤ) (t : Task) (s : AppState)
      → (turn env now t s).1.dedupe ≡ feed s.dedupe (event_ids t)
  unfolding turn feed notify_offline save_store
  dedupe-turn now (arrived event_id candidate) s = refl
  dedupe-turn now (admitted _) s = refl
  dedupe-turn now (matching _ _) s = refl
  dedupe-turn now (consuming _ _ _ _) s = refl
  dedupe-turn now (sending _ _ _) s = ground arith
  dedupe-turn now (refused _ _) s = refl
  dedupe-turn now (asking _) s = ground arith
  dedupe-turn now (prompting _ _ _ []) s = refl
  dedupe-turn now (prompting _ _ _ (_ ∷ _)) s = refl
  dedupe-turn now (forgetting _) s = refl
  dedupe-turn now (choosing _) s = refl
  dedupe-turn now (rooting _) s = refl
  dedupe-turn now (binding_thread _ _) s = refl
  dedupe-turn now (inviting _) s = refl
  dedupe-turn now finished s = refl

  dedupe-commit :
      (change : Store → Store) (s : AppState) → (commit env change s).1.dedupe ≡ s.dedupe
  unfolding commit save_store
  dedupe-commit change s = ground arith

  dedupe-Section : {s t : AppState} → Section env s t → t.dedupe ≡ s.dedupe
  unfolding unbind_threads save_store
  dedupe-Section (joins name) = refl
  dedupe-Section (leaves name) = refl
  dedupe-Section (takes name e) = refl
  dedupe-Section (injects session chat_id user text) = refl
  dedupe-Section (unbinds channel user) = refl
  dedupe-Section {s} (commits change same) = dedupe-commit change s
  dedupe-Section (logs_in sessions) = refl
  dedupe-Section (posts_reply calls) = refl

  -- The memory at the end is that of the first world, fed with as many ids as were looked up.
  dedupe-Reach :
      {first last : World} (r : Reach env first last)
      → (ids : List Text) × (last.state.dedupe ≡ feed first.state.dedupe ids)
        × (length ids ≡ arrivals env r)
  unfolding feed
  dedupe-Reach here = ([], refl, refl)
  dedupe-Reach (later {w} r (begins i b free)) =
      let (ids, fed, count) = dedupe-Reach r in (ids, fed, omega (arith, count))
  dedupe-Reach {first} (later {w} r (turns now i)) =
      let (ids, fed, count) = dedupe-Reach r in
      let t = w.tasks i in
      (
        ids ++ event_ids t,
        dedupe-turn now t w.state
            ∙ ap (λ d. feed d (event_ids t)) fed
            ∙ sym (feed-append first.state.dedupe ids (event_ids t)),
        omega (arith, count, length-append ids (event_ids t), length-event_ids t),
      )
  dedupe-Reach (later {w} r (elsewhere s x)) =
      let (ids, fed, count) = dedupe-Reach r in (ids, dedupe-Section x ∙ fed, omega (arith, count))

  -- When a task has found its event new, then a task of the same event that has its turn later, after
  -- any steps of any tasks and handlers, ends at this turn and changes nothing, as long as fewer
  -- messages than the capacity of the memory were looked up in between.
  pub repeat_refused :
      (now after : ℤ) (i j : ℕ) (event_id : Text) (candidate again : Option Candidate)
      (first last : World)
      → IsValid first.state.dedupe
      → first.tasks i ≡ arrived event_id candidate
      → (first_seen first.state.dedupe event_id).0 ≡ true
      → (r : Reach env
          (record {
            state = (turn env now (first.tasks i) first.state).1;
            tasks = update first.tasks i (turn env now (first.tasks i) first.state).0;
          })
          last)
      → arrivals env r < first.state.dedupe.capacity
      → last.tasks j ≡ arrived event_id again
      → turn env after (last.tasks j) last.state ≡ (finished, last.state)
  unfolding turn
  repeat_refused now after i j event_id candidate again first last valid stands new r few repeated =
      let (ids, fed, count) = dedupe-Reach r in
      let looked_up : (turn env now (first.tasks i) first.state).1.dedupe
          ≡ (first_seen first.state.dedupe event_id).1 =
        ap (λ t. (turn env now t first.state).1.dedupe) stands in
      let old : (first_seen last.state.dedupe event_id).0 ≡ false =
        ap (λ d. (first_seen d event_id).0) (fed ∙ ap (λ d. feed d ids) looked_up)
        ∙ redelivery_refused first.state.dedupe event_id ids valid new
            (omega (arith, count, few)) in
      ap (λ t. turn env after t last.state) repeated
      ∙ rw old (
          ap (λ d. (finished, record last.state { dedupe = d }))
            (first_seen_again last.state.dedupe event_id old))
