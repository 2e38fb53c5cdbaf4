-- ===== src/Relay/Slack/Interactions/Laws.antt =====
-- When a payload selects a session.
use slack_claude_remote.Prelude.{some, ◌≡◌, ◌↔◌, arith, Option-cases, inl, inr}
use slack_claude_remote.Prelude.Text.{codes, text_eq_iff, text_eq_refl}
use slack_claude_remote.Json.{Json, str_field}
use slack_claude_remote.Relay.Slack.Interactions.{Selection, nested_str, selected_session}

module _ (json : Json) where
  open json use {Value, get, get_at}

  pub record Selects (payload : Value) (sel : Selection) : Type 0 where
    pub kind : str_field json payload (codes "type") ≡ some (codes "block_actions")
    pub actions : Value
    pub actions_is : get payload (codes "actions") ≡ some actions
    pub action : Value
    pub first : get_at actions 0 ≡ some action
    pub action_id : str_field json action (codes "action_id") ≡ some (codes "sccr_select")
    pub session :
        nested_str json action (codes "selected_option") (codes "value") ≡ some sel.session
    pub channel : nested_str json payload (codes "channel") (codes "id") ≡ some sel.channel
    pub user : nested_str json payload (codes "user") (codes "id") ≡ some sel.user
    pub url : str_field json payload (codes "response_url") ≡ some sel.response_url

  selected_complete :
      (payload : Value) (sel : Selection)
      → Selects payload sel
      → selected_session json payload ≡ some sel
  unfolding selected_session
  selected_complete payload sel s =
      ground (arith, text_eq_refl (codes "block_actions"), text_eq_refl (codes "sccr_select"))

  selected_sound :
      (payload : Value) (sel : Selection)
      → selected_session json payload ≡ some sel
      → Selects payload sel
  unfolding selected_session
  selected_sound payload sel e = elim (Option-cases (str_field json payload (codes "type"))) [
    | inl missing ↦ absurd (ground arith)
    | inr (kind, given) ↦ elim (Option-cases (get payload (codes "actions"))) [
      | inl missing ↦ absurd (ground arith)
      | inr (actions, listed) ↦ elim (Option-cases (get_at actions 0)) [
        | inl missing ↦ absurd (ground arith)
        | inr (action, first) ↦ elim (Option-cases (str_field json action (codes "action_id"))) [
          | inl missing ↦ absurd (ground arith)
          | inr (id, named) ↦ record {
            kind = ground (arith, text_eq_iff kind (codes "block_actions"));
            actions = actions;
            actions_is = listed;
            action = action;
            first = first;
            action_id = ground (arith, text_eq_iff id (codes "sccr_select"));
            session = ground arith;
            channel = ground arith;
            user = ground arith;
            url = ground arith;
          }
        ]
      ]
    ]
  ]

  -- A payload selects a session exactly when it is a `block_actions` payload whose first action is
  -- the picker's and has a chosen value, with a channel, a user and a response_url; the selection
  -- holds those four texts.
  pub selected_session_iff :
      (payload : Value) (sel : Selection)
      → (selected_session json payload ≡ some sel) ↔ Selects payload sel
  selected_session_iff payload sel = (selected_sound payload sel, selected_complete payload sel)
