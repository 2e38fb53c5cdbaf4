-- ===== src/Agent/Main.antt =====
-- What the agent starts, and the loop with no client beside it (crates/agent/src/main.rs).
-- The variables are a function: `none` for one that is not set or is not Unicode. `output` is what
-- the command `hostname` printed, if it ran and printed UTF-8; the directory comes with its last
-- component, if it has one that is Unicode, and is `none` if the system does not tell it.
pub mod Laws
pub mod Stalls
mod Tests
use slack_claude_remote.Prelude.{
  ℕ, Bool, Option, none, some, List, [], ◌∷◌, ◌||◌, length, leb, if◌then◌else◌, unwrap_or,
}
use slack_claude_remote.Prelude.Text.{Text, codes, is_empty, trim}
use slack_claude_remote.Json.{Json}
use slack_claude_remote.Agent.Ws.{Backoff, Identity, identity_from}
use slack_claude_remote.Agent.Stdio.{Event, Streams, Ending, goes_on, finished, failed, stdio_round}

unfoldable pub hostname : Option Text → Text
hostname none = codes "unknown"
hostname (some output) = let name = trim output in if is_empty name then codes "unknown" else name

-- One and thirty seconds.
abbrev pub backoff : Backoff
backoff = record { initial = 1000; max = 30000 }

-- What is run: the loop over the standard streams alone, or with the client of the relay beside it.
pub data Plan : Type 0 where
  stdio_only : Plan
  with_client : (url token : Text) → Identity → Backoff → Plan

unfoldable pub plan :
    (vars : Text → Option Text) (output : Option Text) (cwd : Option (Text × Option Text)) → Plan
plan vars output cwd =
    let url = unwrap_or (vars (codes "SCCR_RELAY_URL")) [] in
    let token = unwrap_or (vars (codes "SCCR_TOKEN")) [] in
    let (directory, file_name) = unwrap_or cwd (codes "/", none) in
    if is_empty url || is_empty token
    then stdio_only
    else with_client url token
        (identity_from (vars (codes "SCCR_SESSION_NAME")) (hostname output) file_name directory)
        backoff

-- The queues of `main` hold 32 values.
abbrev pub channel_capacity : ℕ
channel_capacity = 32

module _ (json : Json) (version : Text) where
  -- The loop has ended or goes on, or it waits to put the last of `to_relay` into a full queue.
  pub data Progress : Type 0 where
    came_to : Ending json version → Streams json version → Progress
    waits : Streams json version → Progress

  -- `stdio::run` as `stdio_only` has it: nobody takes from the queue to the relay, and its receiving
  -- half is not dropped before `main` ends, so that a send beyond the capacity never returns.
  unfoldable pub stdio_only_run : List (Event json version) → Streams json version → Progress
  stdio_only_run [] s = came_to goes_on s
  stdio_only_run (e ∷ es) s =
      let (ending, s') = stdio_round json version e s in
      let rest = stdio_only_run es s' in
      if leb (length s'.to_relay) channel_capacity
      then elim ending [
        | goes_on ↦ rest
        | finished ↦ came_to finished s'
        | failed ↦ came_to failed s'
      ]
      else waits s'
