-- ===== src/Agent/Stdio.antt =====
-- The loop over standard input and output (crates/agent/src/stdio.rs).
-- The queues of the two channels are lists; a fault of the input or of a write ends the loop.
pub mod Laws
use slack_claude_remote.Prelude.{
  Bool, true, false, Option, none, some, List, [], ◌∷◌, ◌++◌, if◌then◌else◌,
}
use slack_claude_remote.Prelude.Text.{Text}
use slack_claude_remote.Json.{Json}
use slack_claude_remote.Protocol.{AgentMsg}
use slack_claude_remote.Agent.Mcp.{Outcome, responds, emits, both, ignores, dispatch}

module _ (json : Json) (version : Text) where
  -- What `select!` saw: a line, the end or a fault of the input, a value from the relay, or the end
  -- of that channel. A write that fails is `written = false`.
  pub data Event : Type 0 where
    line : Text → (written : Bool) → Event
    end_of_input input_fault : Event
    value : json.Value → (written : Bool) → Event
    no_more_values : Event

  pub record Streams : Type 0 where
    pub output : List json.Value
    pub to_relay : List AgentMsg
    pub stdout_open : Bool

  -- Why the loop ended, if it did.
  pub data Ending : Type 0 where
    goes_on finished failed : Ending

  write_line : json.Value → Bool → Streams → Ending × Streams
  write_line v written s =
      if written then (goes_on, record s { output = s.output ++ v ∷ [] }) else (failed, s)

  unfoldable pub handle_outcome : Outcome json version → Bool → Streams → Ending × Streams
  unfolding write_line
  handle_outcome (responds v) written s = write_line v written s
  handle_outcome (emits m) written s = (goes_on, record s { to_relay = s.to_relay ++ m ∷ [] })
  handle_outcome (both v m) written s =
      let (ending, s') = write_line v written s in
      if written then (ending, record s' { to_relay = s'.to_relay ++ m ∷ [] }) else (ending, s')
  handle_outcome ignores written s = (goes_on, s)

  unfoldable pub stdio_round : Event → Streams → Ending × Streams
  unfolding handle_outcome write_line
  stdio_round (line l written) s = handle_outcome (dispatch json version l) written s
  stdio_round end_of_input s = (finished, s)
  stdio_round input_fault s = (failed, s)
  stdio_round (value v written) s = if s.stdout_open then write_line v written s else (goes_on, s)
  stdio_round no_more_values s = (goes_on, record s { stdout_open = false })

  unfoldable pub stdio_run : List Event → Streams → Ending × Streams
  stdio_run [] s = (goes_on, s)
  stdio_run (e ∷ es) s =
      let (ending, s') = stdio_round e s in
      elim ending [ goes_on ↦ stdio_run es s' | finished ↦ (finished, s') | failed ↦ (failed, s') ]
