-- ===== src/Relay/Tasks/Authority.antt =====
-- In any order of the turns, a verdict that an agent receives was given by the right user.
use slack_claude_remote.Prelude.{◌≡◌, true, some}
use slack_claude_remote.Prelude.Int.{ℤ}
use slack_claude_remote.Prelude.Text.{Text, contains}
use slack_claude_remote.Prelude.Map.{lookup}
use slack_claude_remote.Protocol.{permission_verdict, Behavior}
use slack_claude_remote.Relay.Slack.Events.{Candidate}
use slack_claude_remote.Relay.Store.{Binding}
use slack_claude_remote.Relay.Permission.{sweep}
use slack_claude_remote.Relay.Permission.Pendings.{Answers}
use slack_claude_remote.Relay.State.{AppState}
use slack_claude_remote.Relay.Routes.Env.{Env}
use slack_claude_remote.Relay.Tasks.{Task, matching, consuming, sending}
use slack_claude_remote.Relay.Tasks.World.{World, Once}

-- The author is an allowed user and the thread is bound like this.
abbrev pub IsBoundBy : Candidate → Binding → AppState → Type 0
IsBoundBy c b s =
    (contains s.store.users c.user ≡ true) × (lookup c.chat_id s.store.bindings ≡ some b)

-- At some time the reply answers a pending request that the sweep of that time keeps.
abbrev pub HasRequest : Candidate → Binding → Text → Behavior → AppState → Type 0
HasRequest c b id behavior s = (now : ℤ) × Answers (sweep now s.pending) c b id behavior

module _ (env : Env) where
  -- Why a verdict may be on its way to a session.
  pub record IsGranted (first last : World) (c : Candidate) (session id : Text)
      (behavior : Behavior) : Type 0 where
    pub binding : Binding
    pub of_session : binding.session ≡ session
    pub bound : Once env (IsBoundBy c binding) first last
    pub matched : Once env (HasRequest c binding id behavior) first last

  -- What is known where a task stands.
  abbrev IsJustified : World → World → Task → Type 0
  IsJustified first last (matching c b) = Once env (IsBoundBy c b) first last
  IsJustified first last (consuming c b id behavior) = IsGranted first last c b.session id behavior
  IsJustified first last (sending c session (permission_verdict id behavior)) =
      IsGranted first last c session id behavior
  IsJustified _ _ _ = Unit
