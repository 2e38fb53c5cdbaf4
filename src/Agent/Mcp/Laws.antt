-- ===== src/Agent/Mcp/Laws.antt =====
-- Which lines are answered, and which send a message to the relay.
use slack_claude_remote.Prelude.{
  ◌≡◌, refl, ◌⊎◌, inl, inr, Option, none, some, arith, Bool-cases, Option-cases,
}
use slack_claude_remote.Prelude.Text.{Text, codes, text_eq}
use slack_claude_remote.Json.{Json, str_field, last_value}
use slack_claude_remote.Protocol.{AgentMsg}
use slack_claude_remote.Agent.Mcp.{
  Outcome, sent, responds, emits, both, ignores, respond, error_response, object_of, reply_args,
  handle_initialize, handle_tools_list, handle_tools_call, handle_permission_request,
  dispatch_request, dispatch_notification, dispatch,
}

module _ (json : Json) (version : Text) where
  open json use {Value, get}

  abbrev pub response : Outcome json version → Option Value
  response (responds v) = some v
  response (both v m) = some v
  response (emits m) = none
  response ignores = none

  abbrev pub emitted : Outcome json version → Option AgentMsg
  emitted (responds v) = none
  emitted (both v m) = some m
  emitted (emits m) = some m
  emitted ignores = none

  -- A JSON-RPC response to a request: the version, and the id of the request.
  abbrev pub Answers : Value → Option Value → Type 0
  Answers id answer =
      (v : Value) × (answer ≡ some v)
      × (get v (codes "jsonrpc") ≡ some (json.str (codes "2.0")))
      × (get v (codes "id") ≡ some id)

  respond-Answers : (id result : Value) → Answers id (some (respond json version id result))
  unfolding respond codes text_eq last_value
  respond-Answers id result =
      (respond json version id result, refl, json.get-obj _ _, json.get-obj _ _)

  error_response-Answers :
      (id : Value) (code : _) (message : Text)
      → Answers id (some (error_response json version id code message))
  unfolding error_response codes text_eq last_value
  error_response-Answers id code message =
      (error_response json version id code message, refl, json.get-obj _ _, json.get-obj _ _)

  sent-Answers : (id : Value) → Answers id (some (sent json version id))
  unfolding sent
  sent-Answers id = respond-Answers id _

  tools_call-Answers :
      (id : Value) (params : Option Value)
      → Answers id (response (handle_tools_call json version id params))
  unfolding handle_tools_call
  tools_call-Answers id params = elim (Option-cases (reply_args json version params)) [
    | inl bad ↦ rw (bad, handle_tools_call) (error_response-Answers id _ _)
    | inr ((chat_id, text), good) ↦ rw (good, handle_tools_call) (sent-Answers id)
  ]

  request-Answers :
      (id : Value) (method : Text) (params : Option Value)
      → Answers id (response (dispatch_request json version id method params))
  unfolding dispatch_request handle_initialize handle_tools_list
  request-Answers id method params = elim (Bool-cases (text_eq method (codes "initialize"))) [
    | inl first ↦ rw (first, dispatch_request) (respond-Answers id _)
    | inr other1 ↦ elim (Bool-cases (text_eq method (codes "tools/list"))) [
      | inl second ↦ rw (other1, second, dispatch_request) (respond-Answers id _)
      | inr other2 ↦ elim (Bool-cases (text_eq method (codes "tools/call"))) [
        | inl third ↦ rw (other1, other2, third, dispatch_request) (tools_call-Answers id params)
        | inr other3 ↦ elim (Bool-cases (text_eq method (codes "ping"))) [
          | inl fourth ↦
              rw (other1, other2, other3, fourth, dispatch_request) (respond-Answers id _)
          | inr other4 ↦
              rw (other1, other2, other3, other4, dispatch_request) (error_response-Answers id _ _)
        ]
      ]
    ]
  ]

  -- A line that asks for an answer: a JSON object with a method and an id.
  abbrev pub IsRequest : Text → Value → Type 0
  IsRequest line id =
      (o : Value) × (method : Text) × (object_of json version (json.parse line) ≡ some o)
      × (str_field json o (codes "method") ≡ some method)
      × (get o (codes "id") ≡ some id)

  notification_silent :
      (method : Text) (params : Option Value)
      → response (dispatch_notification json version method params) ≡ none
  unfolding dispatch_notification handle_permission_request
  notification_silent method params = ground arith

  -- A line is answered exactly if it is a JSON object with a method and an id; the answer is a
  -- JSON-RPC 2.0 object with this id.
  pub dispatch-response :
      (line : Text)
      → ((id : Value) × IsRequest line id × Answers id (response (dispatch json version line)))
        ⊎ (response (dispatch json version line) ≡ none) × ((id : Value) → ¬ IsRequest line id)
  unfolding dispatch
  dispatch-response line = elim (Option-cases (object_of json version (json.parse line))) [
    | inl bad ↦ inr (rw (bad, dispatch), λ id (o, method, good, _, _). cc)
    | inr (o, good) ↦ elim (Option-cases (str_field json o (codes "method"))) [
      | inl bare ↦
          inr (rw (good, bare, dispatch), λ id (p, method, good', named, _). absurd (ground arith))
      | inr (method, named) ↦ elim (Option-cases (get o (codes "id"))) [
        | inl anonymous ↦ inr (
          rw (good, named, anonymous, dispatch)
              (notification_silent method (get o (codes "params"))),
          λ id (p, method', good', named', has). absurd (ground arith),
        )
        | inr (id, has) ↦ inl (
          id,
          (o, method, good, named, has),
          rw (good, named, has, dispatch) (request-Answers id method (get o (codes "params"))),
        )
      ]
    ]
  ]
