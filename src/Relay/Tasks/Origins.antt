-- ===== src/Relay/Tasks/Origins.antt =====
-- The replies that tasks hold are those that they began with.
use slack_claude_remote.Prelude.{
  ℕ, ◌≡◌, refl, sym, List, none, some, Option, ap, ◌∙◌, arith, [], ◌∷◌, Option-cases, inl, inr,
}
use native.Mathlib.Decide.{ℕ_discrete}
use slack_claude_remote.Prelude.Int.{ℤ}
use slack_claude_remote.Prelude.Text.{Text, split_once}
use slack_claude_remote.Relay.Slack.Events.{Candidate}
use slack_claude_remote.Relay.Permission.{latest_binding}
use slack_claude_remote.Relay.State.{AppState}
use slack_claude_remote.Relay.Routes.Env.{Env}
use slack_claude_remote.Relay.Routes.Pieces.{pieces_of}
use slack_claude_remote.Relay.Routes.Requests.{colon}
use slack_claude_remote.Relay.Tasks.{
  Task, arrived, admitted, matching, consuming, sending, refused, asking, prompting, forgetting,
  choosing, rooting, binding_thread, inviting, finished, prompting_from, prompt_of, Request, turn,
}
use slack_claude_remote.Relay.Tasks.World.{
  World, update, Beginning, first_task, message, request, choice, Step, begins, turns, elsewhere,
  Reach, here, later,
}

-- The reply that a task holds.
abbrev pub reply_of : Task → Option Candidate
reply_of (arrived _ c) = c
reply_of (admitted c) = some c
reply_of (matching c _) = some c
reply_of (consuming c _ _ _) = some c
reply_of (sending c _ _) = some c
reply_of (refused c _) = some c
reply_of _ = none

module _ (env : Env) where
  -- Along the way the task of this number stood at the handling of a message with this reply.
  pub record Arrived (i : ℕ) (c : Candidate) (first last : World) : Type 0 where
    pub event_id : Text
    pub then_world : World
    pub before : Reach env first then_world
    pub since : Reach env then_world last
    pub stood : then_world.tasks i ≡ arrived event_id (some c)

  Arrived-later :
      {i : ℕ} {c : Candidate} {first last next : World}
      → Step env last next
      → Arrived i c first last
      → Arrived i c first next
  Arrived-later st a = record {
    event_id = a.event_id;
    then_world = a.then_world;
    before = a.before;
    since = later a.since st;
    stood = a.stood;
  }

  reply_of-prompting_from :
      (q : Request) (channel thread_ts : Text) (ps : List Text)
      → reply_of (prompting_from q channel thread_ts ps) ≡ none
  reply_of-prompting_from q channel thread_ts [] = refl
  reply_of-prompting_from q channel thread_ts (p ∷ ps) = refl

  -- A turn brings no other reply.
  reply_of-turn :
      (now : ℤ) (t : Task) (s : AppState) (c : Candidate)
      → reply_of (turn env now t s).0 ≡ some c
      → reply_of t ≡ some c
  unfolding turn
  reply_of-turn now (arrived event_id none) s c h = ground arith
  reply_of-turn now (arrived event_id (some d)) s c h = ground arith
  reply_of-turn now (admitted d) s c h = ground arith
  reply_of-turn now (matching d b) s c h = ground arith
  reply_of-turn now (consuming d b id behavior) s c h = h
  reply_of-turn now (sending d session msg) s c h = ground arith
  reply_of-turn now (refused d session) s c h = cc h
  reply_of-turn now (asking q) s c h =
      elim (Option-cases (latest_binding s.store.bindings q.session)) [
        | inl unbound ↦ ground arith
        | inr ((chat_id, b), bound) ↦ elim (Option-cases (split_once colon chat_id)) [
          | inl whole ↦ ground arith
          | inr ((channel, thread_ts), split) ↦
              ground (arith, reply_of-prompting_from q channel thread_ts (pieces_of (prompt_of q)))
        ]
      ]
  reply_of-turn now (prompting q channel thread_ts []) s c h = cc h
  reply_of-turn now (prompting q channel thread_ts (p ∷ ps)) s c h =
      ground (arith, reply_of-prompting_from q channel thread_ts ps)
  reply_of-turn now (forgetting id) s c h = cc h
  reply_of-turn now (choosing sel) s c h = ground arith
  reply_of-turn now (rooting sel) s c h = ground arith
  reply_of-turn now (binding_thread sel ts) s c h = cc h
  reply_of-turn now (inviting sel) s c h = cc h
  reply_of-turn now finished s c h = cc h

  -- A task that has just begun with a reply stands before its handling.
  first_task-arrived :
      (b : Beginning) (c : Candidate)
      → reply_of (first_task b) ≡ some c
      → (event_id : Text) × (first_task b ≡ arrived event_id (some c))
  first_task-arrived (message event_id candidate) c h = (event_id, ap (arrived event_id) h)
  first_task-arrived (request q) c h = absurd (cc h)
  first_task-arrived (choice sel) c h = absurd (cc h)

  -- From a state where no task is at work: whatever reply a task holds, it arrived with it.
  pub reply-Arrived :
      {first last : World} (j : ℕ) (c : Candidate)
      → ((i : ℕ) → first.tasks i ≡ finished)
      → Reach env first last
      → reply_of (last.tasks j) ≡ some c
      → Arrived j c first last
  reply-Arrived j c idle here h = absurd (cc (h, idle j))
  reply-Arrived {first} j c idle (later {w} r (begins i b free)) h = elim (ℕ_discrete i j) [
    | yes same ↦
        let (event_id, stands) = first_task-arrived b c (ground arith) in
        record {
          event_id = event_id;
          then_world = record w { tasks = update w.tasks i (first_task b) };
          before = later r (begins i b free);
          since = here;
          stood = ground arith;
        }
    | no other ↦ Arrived-later (begins i b free) (reply-Arrived j c idle r (ground arith))
  ]
  reply-Arrived {first} j c idle (later {w} r (turns now i)) h = elim (ℕ_discrete i j) [
    | yes same ↦ Arrived-later (turns now i) (
        reply-Arrived j c idle r (
          ap (λ k. reply_of (w.tasks k)) (sym same)
          ∙ reply_of-turn now (w.tasks i) w.state c (ground arith)))
    | no other ↦ Arrived-later (turns now i) (reply-Arrived j c idle r (ground arith))
  ]
  reply-Arrived {first} j c idle (later {w} r (elsewhere s x)) h =
      Arrived-later (elsewhere s x) (reply-Arrived j c idle r h)
