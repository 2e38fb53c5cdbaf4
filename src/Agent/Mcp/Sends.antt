-- ===== src/Agent/Mcp/Sends.antt =====
-- Which lines send a message to the relay.
use slack_claude_remote.Prelude.{
  ◌≡◌, refl, sym, ap, ◌∙◌, subst, ◌↔◌, inl, inr, false, Option, none, some, arith, Bool-cases,
  Option-cases, ◌>>=?◌ as ◌>>=◌,
}
use slack_claude_remote.Prelude.Text.{Text, codes, text_eq, text_eq_iff, text_eq_refl}
use slack_claude_remote.Json.{Json, str_field}
use slack_claude_remote.Protocol.{AgentMsg, hello, reply, permission_request}
use slack_claude_remote.Agent.Mcp.{
  param_str, object_of, reply_args, request_of, handle_tools_call, handle_permission_request,
  dispatch_request, dispatch_notification, dispatch,
}
use slack_claude_remote.Agent.Mcp.Laws.{emitted}

module _ (json : Json) (version : Text) where
  open json use {Value, get}

  -- The object of a line, its method, and its params.
  pub record Calls (line method : Text) (o : Value) : Type 0 where
    pub parsed : object_of json version (json.parse line) ≡ some o
    pub named : str_field json o (codes "method") ≡ some method

  -- A request to the tool `reply` with both its arguments.
  pub record IsReplyCall (line chat_id text : Text) : Type 0 where
    pub o : Value
    pub calls : Calls line (codes "tools/call") o
    pub id : Value
    pub has_id : get o (codes "id") ≡ some id
    pub tool : param_str json version (get o (codes "params")) (codes "name") ≡ some (codes "reply")
    pub args : Value
    pub given :
        object_of json version (get o (codes "params") >>= λ p. get p (codes "arguments"))
        ≡ some args
    pub chat_id_is : str_field json args (codes "chat_id") ≡ some chat_id
    pub text_is : str_field json args (codes "text") ≡ some text

  -- A notification of a permission request with its four fields.
  pub record IsPermissionRequest (line request_id tool_name description input_preview : Text)
      : Type 0 where
    pub o : Value
    pub calls : Calls line (codes "notifications/claude/channel/permission_request") o
    pub no_id : get o (codes "id") ≡ none
    pub params : Value
    pub given : object_of json version (get o (codes "params")) ≡ some params
    pub request_id_is : str_field json params (codes "request_id") ≡ some request_id
    pub tool_name_is : str_field json params (codes "tool_name") ≡ some tool_name
    pub description_is : str_field json params (codes "description") ≡ some description
    pub input_preview_is : str_field json params (codes "input_preview") ≡ some input_preview

  -- What a line has to be for a message to go to the relay.
  abbrev pub Sends : Text → AgentMsg → Type 0
  Sends line (reply chat_id text) = IsReplyCall line chat_id text
  Sends line (permission_request i t d p) = IsPermissionRequest line i t d p
  Sends line (hello _ _ _ _) = ⊥

  reply_args_sound :
      (line : Text) (o : Value) (id : Value) (chat_id text : Text)
      → Calls line (codes "tools/call") o
      → get o (codes "id") ≡ some id
      → reply_args json version (get o (codes "params")) ≡ some (chat_id, text)
      → IsReplyCall line chat_id text
  unfolding reply_args
  reply_args_sound line o id chat_id text calls has e =
      let params = get o (codes "params") in
      elim (Option-cases (param_str json version params (codes "name"))) [
        | inl missing ↦ absurd (ground arith)
        | inr (name, named) ↦
            elim (Option-cases
              (object_of json version (params >>= λ p. get p (codes "arguments")))) [
                | inl missing ↦ absurd (ground arith)
                | inr (args, given) ↦ record {
                  o = o;
                  calls = calls;
                  id = id;
                  has_id = has;
                  tool = ground (arith, text_eq_iff name (codes "reply"));
                  args = args;
                  given = given;
                  chat_id_is = ground arith;
                  text_is = ground arith;
                }
              ]
      ]

  request_of_sound :
      (line : Text) (o : Value) (m : AgentMsg)
      → Calls line (codes "notifications/claude/channel/permission_request") o
      → get o (codes "id") ≡ none
      → request_of json version (get o (codes "params")) ≡ some m
      → Sends line m
  unfolding request_of
  request_of_sound line o m calls anonymous e =
      elim (Option-cases (object_of json version (get o (codes "params")))) [
        | inl missing ↦ absurd (ground arith)
        | inr (params, given) ↦ elim (Option-cases (str_field json params (codes "request_id"))) [
          | inl missing ↦ absurd (ground arith)
          | inr (i, i_is) ↦ elim (Option-cases (str_field json params (codes "tool_name"))) [
            | inl missing ↦ absurd (ground arith)
            | inr (t, t_is) ↦ elim (Option-cases (str_field json params (codes "description"))) [
              | inl missing ↦ absurd (ground arith)
              | inr (d, d_is) ↦
                  elim (Option-cases (str_field json params (codes "input_preview"))) [
                    | inl missing ↦ absurd (ground arith)
                    | inr (p, p_is) ↦
                        let same : permission_request i t d p ≡ m = ground arith in
                        subst (Sends line) same (record {
                          o = o;
                          calls = calls;
                          no_id = anonymous;
                          params = params;
                          given = given;
                          request_id_is = i_is;
                          tool_name_is = t_is;
                          description_is = d_is;
                          input_preview_is = p_is;
                        })
                  ]
            ]
          ]
        ]
      ]

  tools_call_emits :
      (id : Value) (params : Option Value) (m : AgentMsg)
      → emitted json version (handle_tools_call json version id params) ≡ some m
      → (chat_id text : Text) × (m ≡ reply chat_id text)
        × (reply_args json version params ≡ some (chat_id, text))
  unfolding handle_tools_call
  tools_call_emits id params m e = elim (Option-cases (reply_args json version params)) [
    | inl bad ↦ absurd (ground arith)
    | inr ((chat_id, text), good) ↦ (chat_id, text, ground arith, good)
  ]

  request_emits :
      (id : Value) (method : Text) (params : Option Value) (m : AgentMsg)
      → emitted json version (dispatch_request json version id method params) ≡ some m
      → (method ≡ codes "tools/call")
        × (emitted json version (handle_tools_call json version id params) ≡ some m)
  unfolding dispatch_request
  request_emits id method params m e = (
    ground (arith, text_eq_iff method (codes "tools/call")),
    ground (arith, text_eq_iff method (codes "tools/call")),
  )

  notification_emits :
      (method : Text) (params : Option Value) (m : AgentMsg)
      → emitted json version (dispatch_notification json version method params) ≡ some m
      → (method ≡ codes "notifications/claude/channel/permission_request")
        × (request_of json version params ≡ some m)
  unfolding dispatch_notification handle_permission_request
  notification_emits method params m e =
      elim (Bool-cases (text_eq method (codes "notifications/claude/channel/permission_request"))) [
        | inr other ↦ absurd (ground arith)
        | inl here ↦ (
          (text_eq_iff method (codes "notifications/claude/channel/permission_request")).0 here,
          ground arith,
        )
      ]

  Sends-sound :
      (line : Text) (m : AgentMsg)
      → emitted json version (dispatch json version line) ≡ some m
      → Sends line m
  unfolding dispatch
  Sends-sound line m e = elim (Option-cases (object_of json version (json.parse line))) [
    | inl bad ↦ absurd (ground arith)
    | inr (o, good) ↦ elim (Option-cases (str_field json o (codes "method"))) [
      | inl bare ↦ absurd (ground arith)
      | inr (method, named) ↦ elim (Option-cases (get o (codes "id"))) [
        | inl anonymous ↦
            let (same, asked) =
              notification_emits method (get o (codes "params")) m
                (rw (good, named, anonymous, dispatch) at e) in
            request_of_sound line o m (record { parsed = good; named = named ∙ ap some same })
              anonymous asked
        | inr (id, has) ↦
            let (same, called) =
              request_emits id method (get o (codes "params")) m
                (rw (good, named, has, dispatch) at e) in
            let (chat_id, text, is_reply, args) =
              tools_call_emits id (get o (codes "params")) m called in
            subst (Sends line) (sym is_reply) (
              reply_args_sound line o id chat_id text
                (record { parsed = good; named = named ∙ ap some same }) has args)
      ]
    ]
  ]

  methods_differ :
      (text_eq (codes "tools/call") (codes "initialize") ≡ false)
      × (text_eq (codes "tools/call") (codes "tools/list") ≡ false)
  unfolding codes text_eq
  methods_differ = (refl, refl)

  IsReplyCall-complete :
      (line chat_id text : Text)
      → IsReplyCall line chat_id text
      → emitted json version (dispatch json version line) ≡ some (reply chat_id text)
  unfolding dispatch dispatch_request handle_tools_call reply_args
  IsReplyCall-complete line chat_id text r =
      let args : reply_args json version (get r.o (codes "params")) ≡ some (chat_id, text) =
        rw (r.tool, text_eq_refl (codes "reply"), r.given, r.chat_id_is, r.text_is, reply_args) in
      rw (
        r.calls.parsed,
        r.calls.named,
        r.has_id,
        methods_differ.0,
        methods_differ.1,
        text_eq_refl (codes "tools/call"),
        args,
        dispatch,
        dispatch_request,
        handle_tools_call,
      )

  IsPermissionRequest-complete :
      (line i t d p : Text)
      → IsPermissionRequest line i t d p
      → emitted json version (dispatch json version line) ≡ some (permission_request i t d p)
  unfolding dispatch dispatch_notification handle_permission_request request_of
  IsPermissionRequest-complete line i t d p r = rw (
    r.calls.parsed,
    r.calls.named,
    r.no_id,
    text_eq_refl (codes "notifications/claude/channel/permission_request"),
    r.given,
    r.request_id_is,
    r.tool_name_is,
    r.description_is,
    r.input_preview_is,
    dispatch,
    dispatch_notification,
    handle_permission_request,
    request_of,
  )

  -- A line sends a message to the relay exactly if it is a request that calls the tool `reply` with a
  -- chat_id and a text, and the message is this reply; or a notification of a permission request with
  -- its four fields, and the message is this request.
  pub dispatch_emits_iff :
      (line : Text) (m : AgentMsg)
      → (emitted json version (dispatch json version line) ≡ some m) ↔ Sends line m
  dispatch_emits_iff line m = (Sends-sound line m, complete m)
    where
      complete :
          (k : AgentMsg) → Sends line k → emitted json version (dispatch json version line) ≡ some k
      complete (reply c t) r = IsReplyCall-complete line c t r
      complete (permission_request i t d p) r = IsPermissionRequest-complete line i t d p r
      complete (hello v n h c) r = absurd r
