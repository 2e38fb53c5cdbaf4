-- ===== src/Agent/Mcp.antt =====
-- The dispatch of JSON-RPC lines (crates/agent/src/mcp.rs). `version` is CARGO_PKG_VERSION.
pub mod Laws
pub mod Sends
mod Tests
use slack_claude_remote.Prelude.{
  ℕ, Bool, Option, none, some, List, [], ◌∷◌, ◌++◌, if◌then◌else◌, unwrap_or, ◌>>=?◌ as ◌>>=◌,
}
use slack_claude_remote.Prelude.Int.{ℤ, negsuc}
use slack_claude_remote.Prelude.Text.{Text, codes, text_eq}
use slack_claude_remote.Json.{Json, str_field, is_text}
use slack_claude_remote.Protocol.{AgentMsg, reply, permission_request, Behavior, allow, deny}

abbrev pub instructions : Text
instructions =
    codes "Messages from Slack arrive as <channel source=\"sccr\" chat_id=\"...\" user=\"...\">. "
    ++ codes "Always answer by calling the reply tool with the same chat_id. "
    ++ codes "Keep replies concise; Slack renders plain text and mrkdwn."

module _ (json : Json) (version : Text) where
  open json use {Value, get, as_str, is_object, str, num, obj, arr}

  pub data Outcome : Type 0 where
    responds : Value → Outcome
    emits : AgentMsg → Outcome
    both : Value → AgentMsg → Outcome
    ignores : Outcome

  unfoldable pub respond : (id result : Value) → Value
  respond id result =
      obj ((codes "jsonrpc", str (codes "2.0")) ∷ (codes "id", id) ∷ (codes "result", result) ∷ [])

  unfoldable pub error_response : (id : Value) (code : ℤ) (message : Text) → Value
  error_response id code message = obj (
      (codes "jsonrpc", str (codes "2.0"))
      ∷ (codes "id", id)
      ∷ (codes "error", obj ((codes "code", num code) ∷ (codes "message", str message) ∷ []))
      ∷ [])

  -- -32602 and -32601.
  abbrev invalid_params : Value → Value
  invalid_params id = error_response id (negsuc 32601) (codes "Invalid params")

  abbrev method_not_found : Value → Value
  method_not_found id = error_response id (negsuc 32600) (codes "Method not found")

  abbrev pub param_str : Option Value → Text → Option Text
  param_str params k = params >>= λ p. str_field json p k

  unfoldable pub handle_initialize : Value → Option Value → Value
  unfolding respond
  handle_initialize id params = respond id (
      obj (
        (
          codes "protocolVersion",
          str (unwrap_or (param_str params (codes "protocolVersion")) (codes "2025-06-18")),
        )
        ∷ (
          codes "serverInfo",
          obj ((codes "name", str (codes "sccr")) ∷ (codes "version", str version) ∷ []),
        )
        ∷ (
          codes "capabilities",
          obj (
              (
                codes "experimental",
                obj (
                    (codes "claude/channel", obj [])
                    ∷ (codes "claude/channel/permission", obj [])
                    ∷ []),
              )
              ∷ (codes "tools", obj [])
              ∷ []),
        )
        ∷ (codes "instructions", str instructions)
        ∷ []))

  string_property : Text → Value
  string_property description =
      obj ((codes "type", str (codes "string")) ∷ (codes "description", str description) ∷ [])

  unfoldable pub handle_tools_list : Value → Value
  unfolding respond string_property
  handle_tools_list id = respond id (
      obj (
        (
          codes "tools",
          arr (
              obj (
                (codes "name", str (codes "reply"))
                ∷ (
                  codes "description",
                  str (codes "Send a message to the Slack thread identified by chat_id."),
                )
                ∷ (
                  codes "inputSchema",
                  obj (
                      (codes "type", str (codes "object"))
                      ∷ (
                        codes "properties",
                        obj (
                            (
                              codes "chat_id",
                              string_property (codes "The chat_id attribute from the channel tag"),
                            )
                            ∷ (codes "text", string_property (codes "The message to post"))
                            ∷ []),
                      )
                      ∷ (codes "required", arr (str (codes "chat_id") ∷ str (codes "text") ∷ []))
                      ∷ []),
                )
                ∷ [])
              ∷ []),
        )
        ∷ []))

  -- `as_object` of an optional value, whose `get` is that of the value.
  abbrev pub object_of : Option Value → Option Value
  object_of none = none
  object_of (some v) = if is_object v then some v else none

  sent : Value → Value
  unfolding respond
  sent id = respond id (
      obj (
        (
          codes "content",
          arr (
              obj ((codes "type", str (codes "text")) ∷ (codes "text", str (codes "sent")) ∷ [])
              ∷ []),
        )
        ∷ []))

  -- The arguments of a good call of the tool `reply`.
  unfoldable pub reply_args : Option Value → Option (Text × Text)
  reply_args params =
      if is_text (param_str params (codes "name")) (codes "reply")
      then (do
        args ← object_of (params >>= λ p. get p (codes "arguments"))
        chat_id ← str_field json args (codes "chat_id")
        text ← str_field json args (codes "text")
        some (chat_id, text))
      else none

  unfoldable pub handle_tools_call : Value → Option Value → Outcome
  unfolding reply_args sent error_response
  handle_tools_call id params = elim (reply_args params) [
    | none ↦ responds (invalid_params id)
    | some (chat_id, text) ↦ both (sent id) (reply chat_id text)
  ]

  unfoldable pub request_of : Option Value → Option AgentMsg
  request_of params = do
    o ← object_of params
    request_id ← str_field json o (codes "request_id")
    tool_name ← str_field json o (codes "tool_name")
    description ← str_field json o (codes "description")
    input_preview ← str_field json o (codes "input_preview")
    some (permission_request request_id tool_name description input_preview)

  unfoldable pub handle_permission_request : Option Value → Outcome
  unfolding request_of
  handle_permission_request params = elim (request_of params) [ none ↦ ignores | some m ↦ emits m ]

  unfoldable pub dispatch_request : Value → Text → Option Value → Outcome
  unfolding handle_initialize handle_tools_list handle_tools_call
  dispatch_request id method params =
      if text_eq method (codes "initialize")
      then responds (handle_initialize id params)
      else if text_eq method (codes "tools/list")
      then responds (handle_tools_list id)
      else if text_eq method (codes "tools/call")
      then handle_tools_call id params
      else if text_eq method (codes "ping")
      then responds (respond id (obj []))
      else responds (method_not_found id)

  unfoldable pub dispatch_notification : Text → Option Value → Outcome
  unfolding handle_permission_request
  dispatch_notification method params =
      if text_eq method (codes "notifications/claude/channel/permission_request")
      then handle_permission_request params
      else ignores

  unfoldable pub dispatch : Text → Outcome
  dispatch line = elim (object_of (json.parse line)) [
    | none ↦ ignores
    | some o ↦ elim (str_field json o (codes "method")) [
      | none ↦ ignores
      | some method ↦ elim (get o (codes "id")) [
        | some id ↦ dispatch_request id method (get o (codes "params"))
        | none ↦ dispatch_notification method (get o (codes "params"))
      ]
    ]
  ]

  unfoldable pub channel_notification : (chat_id user text : Text) → Value
  channel_notification chat_id user text = obj (
      (codes "jsonrpc", str (codes "2.0"))
      ∷ (codes "method", str (codes "notifications/claude/channel"))
      ∷ (
        codes "params",
        obj (
            (codes "content", str text)
            ∷ (codes "meta", obj ((codes "chat_id", str chat_id) ∷ (codes "user", str user) ∷ []))
            ∷ []),
      )
      ∷ [])

  abbrev behavior_text : Behavior → Text
  behavior_text allow = codes "allow"
  behavior_text deny = codes "deny"

  unfoldable pub permission_notification : Text → Behavior → Value
  permission_notification request_id behavior = obj (
      (codes "jsonrpc", str (codes "2.0"))
      ∷ (codes "method", str (codes "notifications/claude/channel/permission"))
      ∷ (
        codes "params",
        obj (
            (codes "request_id", str request_id)
            ∷ (codes "behavior", str (behavior_text behavior))
            ∷ []),
      )
      ∷ [])
