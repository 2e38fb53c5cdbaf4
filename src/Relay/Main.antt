-- ===== src/Relay/Main.antt =====
-- The start of the relay (crates/relay/src/main.rs).
-- What the system does is an argument: the variables, the disk of the state file and whether reading
-- it is refused, what the build of an HTTP client brings, and the error of binding the address, if it cannot be bound.
pub mod Laws
pub mod Restart
mod Tests
use slack_claude_remote.Prelude.{
  ℕ, Bool, true, false, Option, none, some, List, [], ◌++◌, Result, ok, err, map_err, ◌>>=◌,
  if◌then◌else◌,
}
use slack_claude_remote.Prelude.Text.{Text, codes}
use slack_claude_remote.Http.{Reqwest}
use slack_claude_remote.Relay.Config.{Config, from_env}
use slack_claude_remote.Relay.Store.{Store, StoreCodec, IoError, Disk, Fault, read_file, load}
use slack_claude_remote.Relay.Slack.Http.{HttpSlack, new_client}
use slack_claude_remote.Relay.State.{AppState, start}

-- The client of Slack: the one that prints, or the one that calls.
pub data SlackClient : Type 0 where
  log_slack : SlackClient
  calling : HttpSlack → SlackClient

pub record Relay : Type 0 where
  pub listening_on : Text
  pub slack : SlackClient
  pub state : AppState
  pub announced : Text

pub record System : Type 0 where
  pub vars : Text → Option Text
  pub refused : Bool
  pub disk : Disk
  pub faults : List Fault
  pub bind : Text → Option Text
  -- `{e}` of an error of the state file.
  pub show_io : IoError → Text

abbrev pub choose_slack : Reqwest → Config → Result SlackClient Text
choose_slack reqwest cfg =
    if cfg.dev
    then ok log_slack
    else (do client ← new_client reqwest cfg.bot_token; ok (calling client))

abbrev pub bind_address : System → Config → Result (Unit {0}) Text
bind_address system cfg = elim (system.bind cfg.bind) [
  | none ↦ ok tt
  | some e ↦ err (codes "cannot bind " ++ cfg.bind ++ codes ": " ++ e)
]

-- `run`, up to the call of `serve`.
unfoldable pub start_relay : StoreCodec → Reqwest → System → Result Relay Text
start_relay codec reqwest system = do
  cfg ← from_env system.vars
  store ←
      map_err (λ e. codes "cannot load state file: " ++ system.show_io e)
        (load codec (read_file system.refused system.disk))
  slack ← choose_slack reqwest cfg
  bound ← bind_address system cfg
  let mode = if cfg.dev then codes " (dev mode)" else []
  ok (record {
    listening_on = cfg.bind;
    slack = slack;
    state = start cfg store system.disk system.faults;
    announced = codes "sccr-relay listening on " ++ cfg.bind ++ mode;
  })

-- `ExitCode::SUCCESS` and `ExitCode::FAILURE`, with what is printed before the latter.
pub data Exit : Type 0 where
  success : Exit
  failure : (printed : Text) → Exit

-- `main`, on the result of `run`.
unfoldable pub exit_of : Result (Unit {0}) Text → Exit
exit_of (ok _) = success
exit_of (err e) = failure (codes "sccr-relay: " ++ e)
