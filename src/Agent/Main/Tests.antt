-- ===== src/Agent/Main/Tests.antt =====
-- An agent with both variables, and one alone that is asked 33 times.
use slack_claude_remote.Prelude.{ℕ, zero, suc, refl, ◌⊎◌, true, Option, some, List, [], ◌∷◌}
use slack_claude_remote.Prelude.Text.{Text, codes}
use slack_claude_remote.Json.{Json}
use slack_claude_remote.Samples.Trees.{text, object, to_members, tree_json}
use slack_claude_remote.Agent.Stdio.{Event, line, Streams}
use slack_claude_remote.Agent.Stdio.Laws.{IsWritten}
use slack_claude_remote.Agent.Main.Stalls.{grown, Ends, StallsAfter, stdio_only_stalls}

-- Every variable is set to "v".
abbrev vars : Text → Option Text
vars key = some (codes "v")

-- Every line asks for a permission.
abbrev asking : Json
asking = record tree_json {
  parse = λ l. some (
      object (
        to_members (
          (codes "method", text (codes "notifications/claude/channel/permission_request"))
          ∷ (
            codes "params",
            object (
                to_members (
                  (codes "request_id", text (codes "abcde"))
                  ∷ (codes "tool_name", text (codes "Bash"))
                  ∷ (codes "description", text (codes "d"))
                  ∷ (codes "input_preview", text (codes "p"))
                  ∷ [])),
          )
          ∷ [])));
}

abbrev asked : ℕ → List (Event asking [])
asked zero = []
asked (suc n) = line (codes "a") true ∷ asked n

asked-IsWritten : (n : ℕ) → IsWritten asking [] (asked n)
asked-IsWritten zero = tt
asked-IsWritten (suc n) = (refl, asked-IsWritten n)

abbrev fresh : Streams asking []
fresh = record { output = []; to_relay = []; stdout_open = true }

stdio_only_stalls_example :
    Ends asking [] (grown asking []) (asked 33) fresh
    ⊎ StallsAfter asking [] (grown asking []) (asked 33) fresh
stdio_only_stalls_example =
    stdio_only_stalls asking [] (asked 33) fresh (asked-IsWritten 33) refl refl
