-- ===== src/Agent/Mcp/Tests.antt =====
-- What a call and a question of Claude emit.
use slack_claude_remote.Prelude.{◌≡◌, refl, ◌↔◌, ◌⊎◌, none, some, []}
use slack_claude_remote.Prelude.Text.{codes, text_eq}
use slack_claude_remote.Json.{last_value}
use slack_claude_remote.Protocol.{reply, permission_request}
use slack_claude_remote.Samples.Trees.{Tree, to_members, tree_get, tree_str, tree_object}
use slack_claude_remote.Samples.Lines.{lines}
use slack_claude_remote.Agent.Mcp.{
  dispatch, dispatch_request, dispatch_notification, handle_tools_call, handle_permission_request,
  request_of, reply_args,
}
use slack_claude_remote.Agent.Mcp.Laws.{response, emitted, IsRequest, Answers, dispatch-response}
use slack_claude_remote.Agent.Mcp.Sends.{Sends, dispatch_emits_iff}

called : emitted lines [] (dispatch lines [] (codes "c")) ≡ some (reply (codes "C:1") (codes "hi"))
unfolding dispatch dispatch_request handle_tools_call reply_args codes text_eq last_value tree_get
    tree_str tree_object to_members
called = refl

asked :
    emitted lines [] (dispatch lines [] (codes "a"))
    ≡ some (permission_request (codes "abcde") (codes "Bash") (codes "d") (codes "p"))
unfolding dispatch dispatch_notification handle_permission_request request_of codes text_eq
    last_value tree_get tree_str tree_object to_members
asked = refl

dispatch-response_example :
    ((id : Tree) × IsRequest lines [] (codes "c") id
      × Answers lines [] id (response lines [] (dispatch lines [] (codes "c"))))
    ⊎ (response lines [] (dispatch lines [] (codes "c")) ≡ none)
      × ((id : Tree) → ¬ IsRequest lines [] (codes "c") id)
dispatch-response_example = dispatch-response lines [] (codes "c")

dispatch_emits_iff_example :
    (emitted lines [] (dispatch lines [] (codes "c")) ≡ some (reply (codes "C:1") (codes "hi")))
    ↔ Sends lines [] (codes "c") (reply (codes "C:1") (codes "hi"))
dispatch_emits_iff_example =
    dispatch_emits_iff lines [] (codes "c") (reply (codes "C:1") (codes "hi"))
