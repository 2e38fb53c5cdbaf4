-- ===== src/Samples/Lines.antt =====
-- Lines as in crates/agent/src/mcp/tests.rs, with their trees in the place of a parser.
use slack_claude_remote.Prelude.{some, List, [], ◌∷◌, if◌then◌else◌}
use slack_claude_remote.Prelude.Int.{pos}
use slack_claude_remote.Prelude.Text.{Text, codes, text_eq}
use slack_claude_remote.Json.{Json}
use slack_claude_remote.Samples.Trees.{Tree, text, number, object, to_members, tree_json}

abbrev fields : List (Text × Tree) → Tree
fields fs = object (to_members fs)

abbrev call : Tree
call = fields (
    (codes "id", number (pos 2))
    ∷ (codes "method", text (codes "tools/call"))
    ∷ (
      codes "params",
      fields (
          (codes "name", text (codes "reply"))
          ∷ (
            codes "arguments",
            fields ((codes "chat_id", text (codes "C:1")) ∷ (codes "text", text (codes "hi")) ∷ []),
          )
          ∷ []),
    )
    ∷ [])

abbrev asking : Tree
asking = fields (
    (codes "method", text (codes "notifications/claude/channel/permission_request"))
    ∷ (
      codes "params",
      fields (
          (codes "request_id", text (codes "abcde"))
          ∷ (codes "tool_name", text (codes "Bash"))
          ∷ (codes "description", text (codes "d"))
          ∷ (codes "input_preview", text (codes "p"))
          ∷ []),
    )
    ∷ [])

-- The line "a" asks, every other calls.
abbrev pub lines : Json
lines = record tree_json { parse = λ l. if text_eq l (codes "a") then some asking else some call }
