-- ===== src/Relay/Tasks/World.antt =====
-- Any number of tasks over one state, with the other handlers in between.
use slack_claude_remote.Prelude.{ℕ, ◌+◌, ◌≡◌, some, List, Option}
use slack_claude_remote.Prelude.Int.{ℤ}
use slack_claude_remote.Prelude.Text.{Text}
use mathlib.Core.Logic.{ite}
use native.Mathlib.Decide.{ℕ_discrete}
use slack_claude_remote.Protocol.{inbound}
use slack_claude_remote.Relay.Slack.Events.{Candidate}
use slack_claude_remote.Relay.Slack.Interactions.{Selection}
use slack_claude_remote.Relay.Slack.Api.{Call}
use slack_claude_remote.Relay.Store.{Store}
use slack_claude_remote.Relay.Session.{Sessions}
use slack_claude_remote.Relay.Hub.{fresh_channel, register, unregister, send, receive}
use slack_claude_remote.Relay.State.{AppState}
use slack_claude_remote.Relay.Routes.Env.{Env}
use slack_claude_remote.Relay.Routes.Webhooks.{unbind_threads}
use slack_claude_remote.Relay.Auth.Admin.{commit}
use slack_claude_remote.Relay.Tasks.{Task, arrived, asking, choosing, finished, Request, turn}

-- The tasks, by number; a number that names no task is `finished`.
pub record World : Type 0 where
  pub state : AppState
  pub tasks : ℕ → Task

abbrev pub update : (ℕ → Task) → ℕ → Task → ℕ → Task
update tasks i t j = ite (ℕ_discrete i j) t (tasks j)

-- How a task begins.
pub data Beginning : Type 0 where
  message : (event_id : Text) → Option Candidate → Beginning
  request : Request → Beginning
  choice : Selection → Beginning

abbrev pub first_task : Beginning → Task
first_task (message event_id candidate) = arrived event_id candidate
first_task (request r) = asking r
first_task (choice sel) = choosing sel

-- Whether a task stands before the memory of event ids.
abbrev pub is_arrival : Task → ℕ
is_arrival (arrived _ _) = 1
is_arrival _ = 0

module _ (env : Env) where
  open env use {store_codec}

  -- What else is done to the state, a lock at a time: the connections of agents, the development
  -- route, `/cc unbind`, the changes of the login and of the admin page, and replies to threads.
  pub data Section (s : AppState) : AppState → Type 0 where
    joins : (name : Text) → Section s (record s { hub = (register name fresh_channel s.hub).1 })
    leaves : (name : Text) → Section s (record s { hub = unregister name s.hub })
    takes :
        (name : Text) {hub : _} {msg : _}
        → receive name s.hub ≡ some (msg, hub)
        → Section s (record s { hub = hub })
    injects :
        (session chat_id user text : Text)
        → Section s (record s { hub = (send session (inbound chat_id user text) s.hub).1 })
    unbinds : (channel user : Text) → Section s (unbind_threads env channel user s).1
    commits :
        (change : Store → Store)
        → ((store : Store) → (change store).bindings ≡ store.bindings)
        → Section s (commit env change s).1
    logs_in : (sessions : Sessions) → Section s (record s { sessions = sessions })
    posts_reply : (calls : List Call) → Section s (record s { calls = calls })

  pub data Step (w : World) : World → Type 0 where
    begins :
        (i : ℕ) (b : Beginning)
        → w.tasks i ≡ finished
        → Step w (record w { tasks = update w.tasks i (first_task b) })
    turns :
        (now : ℤ) (i : ℕ)
        → Step w (record {
          state = (turn env now (w.tasks i) w.state).1;
          tasks = update w.tasks i (turn env now (w.tasks i) w.state).0;
        })
    elsewhere : (s : AppState) → Section w.state s → Step w (record w { state = s })

  pub data Reach (w₀ : World) : World → Type 0 where
    here : Reach w₀ w₀
    later : {w v : World} → Reach w₀ w → Step w v → Reach w₀ v

  -- Along the way from the first to the last there was a state of this kind.
  pub record Once (kind : AppState → Type 0) (first last : World) : Type 0 where
    pub then_world : World
    pub before : Reach first then_world
    pub since : Reach then_world last
    pub was : kind then_world.state

  -- How many messages were looked up among the event ids along the way.
  abbrev pub look_ups : (w : World) {v : World} → Step w v → ℕ
  look_ups w (begins i b free) = 0
  look_ups w (turns now i) = is_arrival (w.tasks i)
  look_ups w (elsewhere s x) = 0

  abbrev pub arrivals : {first last : World} → Reach first last → ℕ
  arrivals here = 0
  arrivals (later {w} r st) = arrivals r + look_ups w st
